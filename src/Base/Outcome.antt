-- ===== src/Base/Outcome.antt =====
-- `anyhow::Result`: a value or one of the messages with which the sources bail.
use mathlib.Core.Path.{refl, ◌≡◌}
use mathlib.Core.Bool.{Bool, false, true}
use mathlib.Core.Option.{Option, none, some}

-- One constructor for each `bail!` or `.context` text, or for texts that say the same.
pub data Error : Type 0 where
  invalid_root_key insecure_root_key insecure_root_parent root_key_too_large invalid_hex : Error
  invalid_certificate_device_id invalid_device_name invalid_window invalid_issuer_key_id : Error
  device_id_key_mismatch certificate_too_large invalid_magic unsupported_schema not_utf8 : Error
  invalid_field_length field_exceeds_limit length_overflow truncated trailing_bytes : Error
  invalid_signature issuer_not_pinned not_yet_valid expired invalid_key : Error
  foreign_certificate zero_port unsupported_version discovery_too_large : Error
  from_the_future stale replayed replay_cache_full : Error
  invalid_pair_id invalid_mode invalid_frame frame_too_large unexpected_sequence : Error
  invalid_role unexpected_frame truncated_start plaintext_too_large : Error
  encrypt_failed decrypt_failed : Error
  invalid_pairing_device_id invalid_domain invalid_presence invalid_authorized_at : Error
  missing_certificate certificate_limit record_too_large parse_failed : Error
  domain_mismatch not_bilateral identity_fields_differ same_device : Error
  other_session session_keys_differ foreign_authorizer foreign_identity : Error
  authorization_denied already_complete already_signed not_regular_file : Error
  conflicting_record revoked_pair appeared_during_write io_failed : Error
  missing_record name_mismatch not_participant context_fields_differ : Error
  already_revoked missing_pending no_active_pairing invalid_capability : Error
  capability_mismatch insecure_permissions already_advanced missing_state : Error
  reflection wrong_peer bad_acknowledgement unexpected_signature_state : Error
  invalid_expected_peer handshake_incomplete wrong_mode wrong_pair_id wrong_role : Error
  wire_frame invalid_preface busy unexpected_message invalid_state : Error
  handshake_failed invalid_auth_payload peer_key_mismatch reconnect_differs : Error
  malformed_identity : Error

pub data Result {ℓ} (A : Type ℓ) : Type ℓ where
  ok : A → Result A
  err : Error → Result A

-- The operators bind looser than every test.
infixl 5 ◌>>=◌
infixl 5 ◌>>◌
-- `if c { bail!(e) }`
abbrev pub bail_if : Bool → Error → Result (Unit {0})
bail_if true e = err e
bail_if false e = ok tt

-- `o.context(e)?`
abbrev pub context {ℓ} : {A : Type ℓ} → Option A → Error → Result A
context none e = err e
context (some a) e = ok a

abbrev pub is_ok {ℓ} : {A : Type ℓ} → Result A → Bool
is_ok (ok a) = true
is_ok (err e) = false

-- `let a = step?; …`
abbrev pub ◌>>=◌ {ℓ κ} : {A : Type ℓ} {B : Type κ} → Result A → (A → Result B) → Result B
err e >>= next = err e
ok a >>= next = next a

-- `step?; …`
abbrev pub ◌>>◌ {ℓ} : {B : Type ℓ} → Result (Unit {0}) → Result B → Result B
step >> rest = step >>= λ _. rest

-- The value that a chain of steps went on with.
pub >>=-eq-ok {ℓ κ} :
    {A : Type ℓ} {B : Type κ} (step : Result A) (next : A → Result B) {out : B}
    → (step >>= next) ≡ ok out
    → (value : A) × (step ≡ ok value) × (next value ≡ ok out)
>>=-eq-ok (err e) next h = cc
>>=-eq-ok (ok value) next h = (value, refl, h)

-- Inversion of a guard that passed.
pub bail_if-eq-ok {ℓ} :
    {B : Type ℓ} (c : Bool) (e : Error) (k : Result B) {b : B}
    → (bail_if c e >> k) ≡ ok b
    → (c ≡ false) × (k ≡ ok b)
bail_if-eq-ok true e k h = cc
bail_if-eq-ok false e k h = (refl, h)

-- The same for a checked step whose value is not used.
pub >>-eq-ok {ℓ} :
    {B : Type ℓ} (m : Result (Unit {0})) (k : Result B) {b : B}
    → (m >> k) ≡ ok b
    → (m ≡ ok tt) × (k ≡ ok b)
>>-eq-ok (ok tt) k h = (refl, h)
>>-eq-ok (err e) k h = cc

pub is_ok-eq-true {ℓ} : {A : Type ℓ} (m : Result A) → is_ok m ≡ true → (a : A) × (m ≡ ok a)
is_ok-eq-true (ok a) h = (a, refl)
is_ok-eq-true (err e) h = cc

pub bail_if-passed : (c : Bool) (e : Error) → bail_if c e ≡ ok tt → c ≡ false
bail_if-passed true e h = cc
bail_if-passed false e h = refl

pub ok_inj {ℓ} : {A : Type ℓ} {a b : A} → ok a ≡ ok b → a ≡ b
ok_inj h = cc

-- The same inversions as rules that hand the facts to the rest of a proof.
module _ {B : Type 0} {G : Type 0} {b : B} where
  pub >>-elim :
      (m : Result (Unit {0})) (k : Result B) → (m >> k) ≡ ok b → (m ≡ ok tt → k ≡ ok b → G) → G
  >>-elim (ok tt) k h g = g refl h
  >>-elim (err e) k h g = cc

  pub bail_if-elim :
      (c : Bool) (e : Error) (k : Result B)
      → (bail_if c e >> k) ≡ ok b
      → (c ≡ false → k ≡ ok b → G)
      → G
  bail_if-elim true e k h g = cc
  bail_if-elim false e k h g = g refl h

  pub >>=-elim :
      {A : Type 0} (m : Result A) (f : A → Result B)
      → (m >>= f) ≡ ok b
      → ((a : A) → m ≡ ok a → f a ≡ ok b → G)
      → G
  >>=-elim (ok a) f h g = g a refl h
  >>=-elim (err e) f h g = cc
