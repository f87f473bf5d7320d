-- ===== src/Record.antt =====
-- `PairingRecord` of trust.rs: the bilateral record, its shape, its canonical bytes, its signatures.
use omarchy_sync.Identity
use omarchy_sync.Session.{role_initiator, role_responder}
use omarchy_sync.Base.{
  Bool, Bytes, List, Option, Result, [], bail_if, certificate_limit, codes, conflicting_record,
  context, eq_bytes, err, false, if◌then◌else◌, invalid_authorized_at, invalid_domain, invalid_key,
  invalid_pair_id, invalid_pairing_device_id, invalid_presence, invalid_role, invalid_signature,
  is_empty, join, length, ltb, missing_certificate, none, not, ok, parse_failed, record_too_large,
  some, to_be, true, ℕ, ◌&&◌, ◌++◌, ◌==◌, ◌>>=◌, ◌>>◌, ◌||◌, ◌∷◌, ◌≡◌,
}
use omarchy_sync.Identity.{DeviceIdentity, sign}
use omarchy_sync.Certificate.{bad_hex_id}
use omarchy_sync.Crypto.{Crypto}
use omarchy_sync.Cursor.{new, put_bytes}

abbrev pub record_magic : Bytes
record_magic = codes "OMARCHY-SYNC-V3-PAIRING-RECORD"

abbrev pub record_schema : ℕ
record_schema = 1

abbrev pub domain_v3 : Bytes
domain_v3 = codes "omarchy-sync/pairing/v3"

abbrev pub max_marker_bytes : ℕ
max_marker_bytes = 128

abbrev pub max_record_bytes : ℕ
max_record_bytes = 4096

pub record PairingRecord : Type 0 where
  pub protocol_version : ℕ
  pub domain : Bytes
  pub pair_id : Bytes
  pub initiator_device_id : Bytes
  pub responder_device_id : Bytes
  pub initiator_public_key : Bytes
  pub responder_public_key : Bytes
  pub initiator_certificate : Bytes
  pub responder_certificate : Bytes
  pub session_binding : Bytes
  pub authorizing_device_id : Bytes
  pub user_presence : Bytes
  pub authorized_at : ℕ
  pub initiator_signature : Option Bytes
  pub responder_signature : Option Bytes

abbrev pub is_some {ℓ} : {A : Type ℓ} → Option A → Bool
is_some none = false
is_some (some a) = true

unfoldable pub is_complete : PairingRecord → Bool
is_complete r = is_some r.initiator_signature && is_some r.responder_signature

unfoldable pub is_pending : PairingRecord → Bool
unfolding is_complete
is_pending r = not (is_complete r)

unfoldable pub validate_device_id : Bytes → Result (Unit {0})
validate_device_id id = bail_if (bad_hex_id id) invalid_pairing_device_id

unfoldable pub checked_pair_id : Bytes → Result (Unit {0})
checked_pair_id id = bail_if (bad_hex_id id) invalid_pair_id

unfoldable pub bad_presence : Bytes → Bool
bad_presence marker = is_empty marker || ltb max_marker_bytes (length marker)

unfoldable pub validate_shape : PairingRecord → Result (Unit {0})
unfolding validate_device_id checked_pair_id bad_presence
validate_shape r = do
  checked_pair_id r.pair_id
  bail_if (bad_hex_id r.initiator_device_id) invalid_pairing_device_id
  bail_if (bad_hex_id r.responder_device_id) invalid_pairing_device_id
  bail_if (is_empty r.domain || ltb 64 (length r.domain)) invalid_domain
  validate_device_id r.authorizing_device_id
  bail_if (bad_presence r.user_presence) invalid_presence
  bail_if (r.authorized_at == 0) invalid_authorized_at
  bail_if (is_empty r.initiator_certificate || is_empty r.responder_certificate) missing_certificate

unfoldable pub bounded_bytes : Bytes → Result Bytes
bounded_bytes bs = if is_empty bs || ltb 512 (length bs) then err certificate_limit else ok bs

-- The pieces that are appended; the last five arguments have their lengths in front.
abbrev pub payload : PairingRecord → Bytes → Bytes → Bytes → Bytes → Bytes → List Bytes
payload r domain id i_cert r_cert presence =
    record_magic
    ∷ (record_schema ∷ [])
    ∷ (r.protocol_version ∷ [])
    ∷ domain
    ∷ id
    ∷ r.initiator_device_id
    ∷ r.responder_device_id
    ∷ r.initiator_public_key
    ∷ r.responder_public_key
    ∷ i_cert
    ∷ r_cert
    ∷ r.session_binding
    ∷ r.authorizing_device_id
    ∷ presence
    ∷ to_be 8 r.authorized_at
    ∷ []

unfoldable pub signing_bytes : PairingRecord → Result Bytes
unfolding bounded_bytes
signing_bytes r = do
  validate_shape r
  ic ← bounded_bytes r.initiator_certificate
  rc ← bounded_bytes r.responder_certificate
  domain ← put_bytes r.domain 64
  id ← put_bytes r.pair_id 32
  i_cert ← put_bytes ic 512
  r_cert ← put_bytes rc 512
  presence ← put_bytes r.user_presence max_marker_bytes
  let out = join (payload r domain id i_cert r_cert presence)
  bail_if (ltb max_record_bytes (length out)) record_too_large
  ok out

-- The files hold the records as JSON, by serde_json: no code of the repository.
pub record Serde : Type 0 where
  pub to_json : PairingRecord → Bytes
  pub of_json : Bytes → Option PairingRecord

-- What serde documents of a derived format: parsing gives back what was printed.
pub record SerdeLaws (s : Serde) : Type 0 where
  pub of_json-to_json : (r : PairingRecord) → s.of_json (s.to_json r) ≡ some r

unfoldable pub to_bytes : Serde → PairingRecord → Result Bytes
to_bytes s r = do
  let bs = s.to_json r
  bail_if (ltb max_record_bytes (length bs)) record_too_large
  ok bs

unfoldable pub from_bytes : Serde → Bytes → Result PairingRecord
from_bytes s bs = do
  bail_if (ltb max_record_bytes (length bs)) record_too_large
  r ← context (s.of_json bs) parse_failed
  validate_shape r
  ok r

unfoldable pub signature_for : PairingRecord → ℕ → Option Bytes
signature_for r role =
    if role == role_initiator then r.initiator_signature else r.responder_signature

unfoldable pub set_signature : PairingRecord → ℕ → Bytes → PairingRecord
set_signature r role sig =
    if role == role_initiator
    then record r { initiator_signature = some sig }
    else record r { responder_signature = some sig }

module _ (k : Crypto) where
  unfoldable pub sign_record : DeviceIdentity → PairingRecord → ℕ → Result Bytes
  sign_record identity r role = do
    message ← signing_bytes r
    ok (Identity.sign k identity (message ++ (role ∷ [])))

  unfoldable pub verify_record_signature : PairingRecord → ℕ → Bytes → Result (Unit {0})
  verify_record_signature r role sig = do
    bail_if (not (length sig == 64)) invalid_signature
    key ←
        if role == role_initiator
        then ok r.initiator_public_key
        else if role == role_responder
        then ok r.responder_public_key
        else err invalid_role
    message ← signing_bytes r
    bail_if (not (k.key_ok key)) invalid_key
    bail_if (not (k.verify_strict key (message ++ (role ∷ [])) sig)) invalid_signature

  unfoldable pub record_fingerprint : PairingRecord → Result Bytes
  record_fingerprint r = do message ← signing_bytes r; ok (k.sha256 message)

unfoldable pub ensure_same_binding : PairingRecord → PairingRecord → Result (Unit {0})
ensure_same_binding old new =
    if not (eq_bytes old.pair_id new.pair_id)
      || not (eq_bytes old.initiator_device_id new.initiator_device_id)
      || not (eq_bytes old.responder_device_id new.responder_device_id)
      || not (eq_bytes old.session_binding new.session_binding)
    then err conflicting_record
    else (do
      a ← signing_bytes old
      b ← signing_bytes new
      bail_if (not (eq_bytes a b)) conflicting_record)

abbrev pub eq_option : Option Bytes → Option Bytes → Bool
eq_option none none = true
eq_option none (some y) = false
eq_option (some x) none = false
eq_option (some x) (some y) = eq_bytes x y

-- Derived equality of records.
unfoldable pub eq_record : PairingRecord → PairingRecord → Bool
eq_record a b =
    a.protocol_version == b.protocol_version
    && eq_bytes a.domain b.domain
    && eq_bytes a.pair_id b.pair_id
    && eq_bytes a.initiator_device_id b.initiator_device_id
    && eq_bytes a.responder_device_id b.responder_device_id
    && eq_bytes a.initiator_public_key b.initiator_public_key
    && eq_bytes a.responder_public_key b.responder_public_key
    && eq_bytes a.initiator_certificate b.initiator_certificate
    && eq_bytes a.responder_certificate b.responder_certificate
    && eq_bytes a.session_binding b.session_binding
    && eq_bytes a.authorizing_device_id b.authorizing_device_id
    && eq_bytes a.user_presence b.user_presence
    && a.authorized_at == b.authorized_at
    && eq_option a.initiator_signature b.initiator_signature
    && eq_option a.responder_signature b.responder_signature
