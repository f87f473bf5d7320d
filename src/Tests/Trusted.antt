-- ===== src/Tests/Trusted.antt =====
-- The theorems on the store at the two devices.
use omarchy_sync.Store.Activation
use omarchy_sync.Tests.Devices.{device, empty_disk, id_of, paired_disk, session, signed, store}
use omarchy_sync.Tests.Toy.{toy}
use omarchy_sync.Tests.Json.{json, json-SerdeLaws}
use omarchy_sync.Store.Operations.{finalize, reconcile, revoke}
use omarchy_sync.Store.{validate_stored}
use omarchy_sync.Store.Trust.{IsTrusted, apply_all-IsTrusted}
use omarchy_sync.Store.Load.{finalize-load, reconcile-load}
use omarchy_sync.Store.Active.{IsFound, IsOther, has_active_pairing_iff}
use omarchy_sync.Base.{
  Bytes, All, Bytes, List, false, ◌↔◌, [], ap, codes, none, ok, refl, some, true, ◌>>◌, ◌∷◌, ◌≡◌,
  ◌≢◌, ◌⊎◌,
}
use mathlib.Core.Path.{subst}
use omarchy_sync.Record.{validate_device_id}
use omarchy_sync.Tests.Runs.{finalize_test, reconcile_test, revoke_test, write_pending_test}
use omarchy_sync.Store.Disk.{Disk, exists, file_name, find}
use omarchy_sync.Store.Life.{Lives, apply_all-Lives, life}
use omarchy_sync.Store.Lookup.{has_active_pairing, load}
use omarchy_sync.Store.Write.{write_pending}
use omarchy_sync.Store.Pending.{IsKept, IsNew, write_pending-written}
use omarchy_sync.Store.Revocation.{revoke-lasting}
use omarchy_sync.Store.Activation.{Operation, apply, apply_all}

empty-IsTrusted : IsTrusted toy json empty_disk.active empty_disk.revoked
unfolding find
empty-IsTrusted = record { never_revoked = λ name e. refl; bilateral = λ name node e. cc }

-- One device prepares, finalizes and revokes.
abbrev ceremony : List Operation
ceremony =
    Activation.prepare (store 150) (session 1) (device 1)
      (λ peer. ok (record { user_presence = codes "passkey" }))
    ∷ Activation.finalize (store 150) (session 1) (device 1) signed
    ∷ Activation.revoke (store 160) (id_of 7)
    ∷ []

apply_all-IsTrusted_example :
    IsTrusted toy json
      (apply_all toy json ceremony empty_disk).active
      (apply_all toy json ceremony empty_disk).revoked
apply_all-IsTrusted_example = apply_all-IsTrusted toy json ceremony empty_disk empty-IsTrusted

paired-IsTrusted : IsTrusted toy json paired_disk.active paired_disk.revoked
unfolding apply_all apply
paired-IsTrusted =
    subst (λ (d : Disk). IsTrusted toy json d.active d.revoked) (ap (λ x. x.0) finalize_test)
      (apply_all-IsTrusted toy json
        (Activation.finalize (store 150) (session 1) (device 1) signed ∷ []) empty_disk
        empty-IsTrusted)

revoke-lasting_example :
    (load toy json
        (store 190)
        (id_of 7)
        (apply_all toy json ceremony (revoke toy json (store 150) (id_of 7) paired_disk).0)
      ≡ ok none)
    × ((finalize toy json
          (store 190)
          (session 1)
          (device 1)
          signed
          (apply_all toy json ceremony (revoke toy json (store 150) (id_of 7) paired_disk).0)).1
        ≢ ok tt)
    × ((reconcile toy json
          (store 190)
          (session 1)
          (device 1)
          signed
          (apply_all toy json ceremony (revoke toy json (store 150) (id_of 7) paired_disk).0)).1
        ≢ ok tt)
revoke-lasting_example =
    revoke-lasting toy json (store 150) (store 190) (session 1) (device 1) signed ceremony
      paired_disk paired-IsTrusted revoke_test

reconcile-load_example :
    load toy json
      (store 300)
      (id_of 7)
      (reconcile toy json (store 300) (session 1) (device 1) signed empty_disk).0
    ≡ ok (some signed)
reconcile-load_example =
    reconcile-load toy json (store 300) signed (session 1) (device 1) json-SerdeLaws empty_disk
      (ap (λ x. x.1) reconcile_test)

finalize-load_example :
    load toy json
      (store 150)
      (id_of 7)
      (finalize toy json (store 150) (session 1) (device 1) signed empty_disk).0
    ≡ (validate_stored toy (store 150) signed >> ok (some signed))
finalize-load_example =
    finalize-load toy json (store 150) signed (session 1) (device 1) json-SerdeLaws empty_disk
      (ap (λ x. x.1) finalize_test)

write_pending-written_example :
    IsNew json signed empty_disk (write_pending json signed empty_disk).0
    ⊎ IsKept json signed empty_disk (write_pending json signed empty_disk).0
write_pending-written_example = write_pending-written json signed empty_disk write_pending_test

has_active_pairing_iff_example :
    ((has_active_pairing toy json (store 300) (id_of 2) (id_of 1) paired_disk ≡ ok true) ↔ (
      (validate_device_id (id_of 2) ≡ ok tt)
      × (validate_device_id (id_of 1) ≡ ok tt)
      × IsFound toy json (store 300) (id_of 2) (id_of 1) paired_disk.active paired_disk.active))
    × ((has_active_pairing toy json (store 300) (id_of 2) (id_of 1) paired_disk ≡ ok false) ↔ (
        (validate_device_id (id_of 2) ≡ ok tt)
        × (validate_device_id (id_of 1) ≡ ok tt)
        × All
            (IsOther toy json (store 300) (id_of 2) (id_of 1) paired_disk.active)
            paired_disk.active))
has_active_pairing_iff_example =
    has_active_pairing_iff toy json (store 300) (id_of 2) (id_of 1) paired_disk

abbrev name_of_pair : Bytes
name_of_pair = file_name (id_of 7)

empty_exclusive :
    exists name_of_pair empty_disk.revoked ≡ true → find name_of_pair empty_disk.active ≡ none
unfolding find
empty_exclusive e = refl

-- The pair is prepared, finalized and revoked by the operations.
apply_all-Lives_example : Lives (life name_of_pair empty_disk.active empty_disk.revoked) (
    life name_of_pair
      (apply_all toy json ceremony empty_disk).active
      (apply_all toy json ceremony empty_disk).revoked)
apply_all-Lives_example = apply_all-Lives toy json name_of_pair ceremony empty_disk empty_exclusive
