-- ===== src/Command/Survival.antt =====
-- The whole command, `main` of cmd/main.go, on a directory that can be searched, with what it serves.
use nexentastor_csi_driver.External.{External}
use nexentastor_csi_driver.Process.{Process}
use nexentastor_csi_driver.Driver.{Driver}
