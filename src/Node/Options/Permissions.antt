-- ===== src/Node/Options/Permissions.antt =====
-- The range of `GetMountPointPermissions` of pkg/driver/nodeServer.go.
use nexentastor_csi_driver.Common.{
  get_or, Bool-cases, Dict, lookup, ℤ, pos, negsuc, is_neg, parsed, parse_int, InRange,
  parse_int-InRange, Parsed-cases, ℕ, ◌+◌, ◌^◌, ◌<◌, String, ◌≡◌, refl, ◌⊎◌, inl, inr, arith, ◌==◌,
  eq_iff,
}
use nexentastor_csi_driver.Errors.{ok}
use nexentastor_csi_driver.Node.Options.{to_file_mode, get_mount_point_permissions}

-- The mode of a number that 16 bits hold.
to_file_mode-cases :
    (n : ℤ)
    → InRange 16 n
    → ((k : ℕ) × (n ≡ pos k) × (to_file_mode n ≡ k) × (k < 2 ^ 15))
      ⊎ ((k : ℕ) × (n ≡ negsuc k) × (to_file_mode n + k + 1 ≡ 2 ^ 32) × (k < 2 ^ 15))
to_file_mode-cases (pos n) h = inl (n, refl, ground arith, ground arith)
to_file_mode-cases (negsuc n) h = inr (n, refl, ground arith, ground arith)

-- An accepted mode of a mount point is the default 0777 where the context has no text for it. Else the
-- text is an octal number of 16 bits, and the mode is that number where it is not negative, which is
-- below 2^15; a negative one, -(k + 1), becomes 2^32 - (k + 1), one of the last 2^15 modes of 32 bits.
pub get_mount_point_permissions-range :
    (F : Type 0) (volume_context : Dict String) (mode : ℕ)
    → get_mount_point_permissions {F = F} volume_context ≡ ok mode
    → let text = get_or (lookup "mountPointPermissions" volume_context) "" in
      ((text ≡ "") × (mode ≡ 511))
      ⊎ ((k : ℕ) × (parse_int text 8 16 ≡ parsed (pos k)) × (mode ≡ k) × (k < 2 ^ 15))
      ⊎ ((k : ℕ) × (parse_int text 8 16 ≡ parsed (negsuc k))
          × (mode + k + 1 ≡ 2 ^ 32)
          × (k < 2 ^ 15))
unfolding get_mount_point_permissions
get_mount_point_permissions-range F volume_context mode h =
    let text = get_or (lookup "mountPointPermissions" volume_context) "" in
    elim (Bool-cases (text == "")) [
      | inl absent ↦ inl ((eq_iff text "").0 absent, ground arith)
      | inr given ↦ elim (Parsed-cases (parse_int text 8 16)) [
        | inl (n, read) ↦
            elim (to_file_mode-cases n (parse_int-InRange text 8 16 n read (omega arith))) [
              | inl (k, is_pos, same, small) ↦ inr (inl (k, ground arith, ground arith, small))
              | inr (k, is_neg, wrapped, small) ↦ inr (inr (k, ground arith, ground arith, small))
            ]
        | inr (e, failed) ↦ absurd (ground arith)
      ]
    ]
