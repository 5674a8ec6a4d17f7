-- ===== src/Controller/Share/Frame.antt =====
-- `createNfsShare` of pkg/driver/controllerServer.go changes the storage only.
use nexentastor_csi_driver.Common.{Bool, split, String, ◌≡◌, refl, List, [], ◌∷◌, arith}
use nexentastor_csi_driver.Errors.{number}
use nexentastor_csi_driver.External.{External}
use nexentastor_csi_driver.External.Params.{NfsRuleList, CreateNfsShareParams}
use nexentastor_csi_driver.Process.{Exec, raise}
use nexentastor_csi_driver.Process.Frames.{servers, KeepsServers, bind-KeepsServers}
use nexentastor_csi_driver.Controller.Share.{
  ParsedRule, rule, bad_mask, parse_rule, add_rule, collect_rules, replace_share, create_nfs_share,
}

module _ (X : External) where
  collect_rules-KeepsServers :
      (items : List String) (params : CreateNfsShareParams)
      → KeepsServers (collect_rules X items params)
  unfolding collect_rules
  collect_rules-KeepsServers [] params s = refl
  collect_rules-KeepsServers (item ∷ items) params s =
      go (parse_rule item)
        λ read_only r. collect_rules-KeepsServers items (add_rule read_only r params) s
    where
      go :
          (r : ParsedRule)
          → ((read_only : Bool) (r : NfsRuleList)
              → servers (collect_rules X items (add_rule read_only r params) s).1 ≡ servers s)
          → servers
              ((let m : Exec X CreateNfsShareParams = elim r [
                | rule read_only r ↦ collect_rules X items (add_rule read_only r params)
                | bad_mask text failed ↦ raise (number "Atoi" text failed)
              ] in
                  m)
                s).1
            ≡ servers s
      go (rule read_only r) k = k read_only r
      go (bad_mask text failed) k = refl

  replace_share-KeepsServers :
      (provider : X.Provider) (params : CreateNfsShareParams)
      → KeepsServers (replace_share X provider params)
  unfolding replace_share
  replace_share-KeepsServers provider params s = ground arith

  pub create_nfs_share-KeepsServers :
      (path rules : String) (provider : X.Provider)
      → KeepsServers (create_nfs_share X path rules provider)
  unfolding create_nfs_share
  create_nfs_share-KeepsServers path rules provider =
      bind-KeepsServers (collect_rules X (split "," rules) _) _
        (collect_rules-KeepsServers (split "," rules) _)
        (λ params. replace_share-KeepsServers provider params)
