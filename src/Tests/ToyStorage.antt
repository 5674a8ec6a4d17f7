-- ===== src/Tests/ToyStorage.antt =====
-- The small storage keeps the promises that the theorems on repeated calls assume, and these theorems
-- on it.
use nexentastor_csi_driver.Common.{
  Option-cases, ℤ, pos, String, ◌≡◌, refl, inl, inr, Option, none, some, List, [], ◌∷◌, arith,
  eq_iff,
}
use nexentastor_csi_driver.Errors.{ok}
use nexentastor_csi_driver.Process.{Process}
use nexentastor_csi_driver.External.Params.{Filesystem}
use nexentastor_csi_driver.External.Storage.{IsStorage}
use nexentastor_csi_driver.Controller.NewVolume.{create_new_volume}
use nexentastor_csi_driver.Controller.NewVolume.Twice.{Exists, create_new_volume-twice}
use nexentastor_csi_driver.Controller.Delete.{destroy_volume}
use nexentastor_csi_driver.Controller.Delete.Twice.{destroy_volume-twice}
use nexentastor_csi_driver.Tests.Toy.{
  exists, missing, World, find_volume, drop_volume, volume_of, toy, host, ready,
}

abbrev quota_of : Option Filesystem → Option ℤ
quota_of none = none
quota_of (some v) = some v.referenced_quota_size

abbrev toy_quota : String → World → String → Option ℤ
toy_quota provider w path = quota_of (find_volume path w.volumes)

find_volume-drop_volume :
    (path : String) (volumes : List Filesystem) → find_volume path (drop_volume path volumes) ≡ none
find_volume-drop_volume path [] = refl
find_volume-drop_volume path (v ∷ volumes) =
    ground (arith, find_volume-drop_volume path volumes, eq_iff v.path path)

toy-IsStorage : IsStorage toy toy_quota
toy-IsStorage = record {
  created = λ p params w w' e. ground (arith, eq_iff params.path params.path);
  already = λ p params w w' f e known. ground arith;
  exists_already = λ p params w q there. (exists, w, ground arith, refl);
  told = λ p path w w' v e. (ground arith, ground arith);
  tells = λ p path w q there. elim (Option-cases (find_volume path w.volumes)) [
    | inl absent ↦ absurd (ground arith)
    | inr (v, found) ↦ (v, w, rw found)
  ];
  destroyed = λ p path params w w' e. ground (arith, find_volume-drop_volume path w.volumes);
  missing_already = λ p path params w w' f e known. ground arith;
  not_there = λ p path params w absent. (missing, w, ground arith, refl);
}

abbrev first_world : World
first_world = record host {
  volumes = volume_of (record { path = "pool/v"; referenced_quota_size = pos 5 }) ∷ [];
}

abbrev after_creation : Process toy
after_creation = record ready { world = first_world }

created_once : create_new_volume toy "10.1.1.1" "pool/v" (pos 5) ready ≡ (ok tt, after_creation)
unfolding create_new_volume
created_once = refl

create_new_volume-twice_example :
    Exists toy toy_quota toy-IsStorage "10.1.1.1" "pool/v" (pos 5) after_creation
    × ((create_new_volume toy "10.1.1.1" "pool/v" (pos 5) after_creation).0 ≡ ok tt)
    × Exists toy toy_quota toy-IsStorage "10.1.1.1" "pool/v"
        (pos 5)
        (create_new_volume toy "10.1.1.1" "pool/v" (pos 5) after_creation).1
create_new_volume-twice_example =
    create_new_volume-twice toy toy_quota toy-IsStorage "10.1.1.1" "pool/v" (pos 5) ready
      after_creation created_once

destroyed_once : destroy_volume toy "pool/v" (some "10.1.1.1") after_creation ≡ (ok tt, ready)
unfolding destroy_volume
destroyed_once = refl

destroy_volume-twice_example :
    (toy_quota "10.1.1.1" ready.world "pool/v" ≡ none)
    × ((destroy_volume toy "pool/v" (some "10.1.1.1") ready).0 ≡ ok tt)
destroy_volume-twice_example =
    destroy_volume-twice toy toy_quota toy-IsStorage "10.1.1.1" "pool/v" after_creation ready
      destroyed_once
