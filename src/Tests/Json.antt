-- ===== src/Tests/Json.antt =====
-- A format of records that meets the law: the fields in order, each with its length in front.
use omarchy_sync.Record.{PairingRecord, Serde, SerdeLaws}
use omarchy_sync.Base.{
  Bytes, Option, [], drop, drop-append, length, none, refl, some, suc, take, take-append, zero, ℕ,
  ◌++◌, ◌∷◌, ◌≡◌,
}
use omarchy_sync.Cursor.{field}

abbrev put : Bytes → Bytes → Bytes
put field rest = length field ∷ (field ++ rest)

abbrev put_option : Option Bytes → Bytes → Bytes
put_option none rest = 0 ∷ rest
put_option (some field) rest = 1 ∷ put field rest

-- A reader of the fields in front, with what to do with the value and the rest.
abbrev get : {A : Type 0} → Bytes → (Bytes → Bytes → Option A) → Option A
get [] k = none
get (n ∷ bs) k = k (take n bs) (drop n bs)

abbrev get_option : {A : Type 0} → Bytes → (Option Bytes → Bytes → Option A) → Option A
get_option [] k = none
get_option (zero ∷ bs) k = k none bs
get_option (suc n ∷ bs) k = get bs (λ v. k (some v))

abbrev get_number : {A : Type 0} → Bytes → (ℕ → Bytes → Option A) → Option A
get_number [] k = none
get_number (n ∷ bs) k = k n bs

unfoldable pub print : PairingRecord → Bytes
print r =
    r.protocol_version
    ∷ r.authorized_at
    ∷ put r.domain (
        put r.pair_id (
          put r.initiator_device_id (
            put r.responder_device_id (
              put r.initiator_public_key (
                put r.responder_public_key (
                  put r.initiator_certificate (
                    put r.responder_certificate (
                      put r.session_binding (
                        put r.authorizing_device_id (
                          put r.user_presence (
                            put_option r.initiator_signature
                              (put_option r.responder_signature []))))))))))))

unfoldable pub parse : Bytes → Option PairingRecord
parse bs = get_number bs λ version bs. get_number bs λ at bs. get bs λ domain bs. get bs λ id bs.
    get bs λ i_id bs. get bs λ r_id bs. get bs λ i_key bs. get bs λ r_key bs. get bs λ i_cert bs.
      get bs λ r_cert bs. get bs λ binding bs. get bs λ authorizer bs. get bs λ presence bs.
        get_option bs λ i_sig bs. get_option bs λ r_sig bs. some (record {
          protocol_version = version;
          domain = domain;
          pair_id = id;
          initiator_device_id = i_id;
          responder_device_id = r_id;
          initiator_public_key = i_key;
          responder_public_key = r_key;
          initiator_certificate = i_cert;
          responder_certificate = r_cert;
          session_binding = binding;
          authorizing_device_id = authorizer;
          user_presence = presence;
          authorized_at = at;
          initiator_signature = i_sig;
          responder_signature = r_sig;
        })

abbrev pub json : Serde
json = record { to_json = print; of_json = parse }

pub json-SerdeLaws : SerdeLaws json
unfolding print parse
json-SerdeLaws = record {
  of_json-to_json = λ r. go r r.initiator_signature refl r.responder_signature refl;
}
  where
    go :
        (r : PairingRecord)
        → (x : Option Bytes) → r.initiator_signature ≡ x
        → (y : Option Bytes) → r.responder_signature ≡ y
        → parse (print r) ≡ some r
    go r none e none f = rw (e, f) (simp (take-append, drop-append))
    go r none e (some b) f = rw (e, f) (simp (take-append, drop-append))
    go r (some a) e none f = rw (e, f) (simp (take-append, drop-append))
    go r (some a) e (some b) f = rw (e, f) (simp (take-append, drop-append))
