-- ===== src/External/Storage.antt =====
-- What a NexentaStor promises of its filesystems, as far as the driver's retries rest on it.
use nexentastor_csi_driver.Common.{ℤ, String, Option, none, some, ◌≡◌, true}
use nexentastor_csi_driver.Errors.{foreign, value}
use nexentastor_csi_driver.External.{External}
use nexentastor_csi_driver.External.Params.{
  CreateFilesystemParams, Filesystem, DestroyFilesystemParams,
}

-- `quota` is the abstract view: the quota of the filesystem at a path of the provider's storage, or
-- none where there is no filesystem. Creating makes a filesystem with its quota, or says that there is
-- one; asking for it tells its quota; destroying removes it, or says that there is none.
pub record IsStorage (X : External) (quota : X.Provider → X.World → String → Option ℤ)
    : Type 0 where
  pub created :
      (p : X.Provider) (params : CreateFilesystemParams) (w w' : X.World)
      → X.create_filesystem p params w ≡ (none, w')
      → quota p w' params.path ≡ some params.referenced_quota_size
  pub already :
      (p : X.Provider) (params : CreateFilesystemParams) (w w' : X.World) (f : X.Fault)
      → X.create_filesystem p params w ≡ (some f, w')
      → X.is_already_exist_nef_error (foreign f) ≡ true
      → quota p w' params.path ≡ quota p w params.path
  pub exists_already :
      (p : X.Provider) (params : CreateFilesystemParams) (w : X.World) (q : ℤ)
      → quota p w params.path ≡ some q
      → (f : X.Fault) × (w' : X.World) × (X.create_filesystem p params w ≡ (some f, w'))
        × (X.is_already_exist_nef_error (foreign f) ≡ true)
  pub told :
      (p : X.Provider) (path : String) (w w' : X.World) (v : Filesystem)
      → X.get_filesystem p path w ≡ (value v, w')
      → (quota p w path ≡ some v.referenced_quota_size)
        × (quota p w' path ≡ some v.referenced_quota_size)
  pub tells :
      (p : X.Provider) (path : String) (w : X.World) (q : ℤ)
      → quota p w path ≡ some q
      → (v : Filesystem) × (w' : X.World) × (X.get_filesystem p path w ≡ (value v, w'))
  pub destroyed :
      (p : X.Provider) (path : String) (params : DestroyFilesystemParams) (w w' : X.World)
      → X.destroy_filesystem p path params w ≡ (none, w')
      → quota p w' path ≡ none
  pub missing_already :
      (p : X.Provider) (path : String) (params : DestroyFilesystemParams) (w w' : X.World)
      (f : X.Fault)
      → X.destroy_filesystem p path params w ≡ (some f, w')
      → X.is_not_exist_nef_error (foreign f) ≡ true
      → quota p w' path ≡ none
  pub not_there :
      (p : X.Provider) (path : String) (params : DestroyFilesystemParams) (w : X.World)
      → quota p w path ≡ none
      → (f : X.Fault) × (w' : X.World) × (X.destroy_filesystem p path params w ≡ (some f, w'))
        × (X.is_not_exist_nef_error (foreign f) ≡ true)
