-- ===== src/Fs/Tests.antt =====
-- The boot image of src/fs.rs mounted, listed and read.
use ziran_os.Prelude.{ℕ, ◌≡◌, ◌≢◌, refl, true, false, List}
use ziran_os.Fs.Image.{ok, panic, slice, read_u32_le}
use ziran_os.Fs.Mount.{mount_inner, mount, mount_loose, mount_tier2}
use ziran_os.Fs.Mounted.{Mounted, ceiling_of, mount_inner-ne-panic, mount_inner-Mounted}
use ziran_os.Fs.Resolve.{read_path}
use ziran_os.Fs.Safe.{Returns, Inside, read_path-Inside}
use ziran_os.Fs.Boot.{booted, mount_boot}
use ziran_os.Fs.Writer.{boot_image}
use ziran_os.Prelude.Text.{codes}
use ziran_os.Fs.Layers.{mount-layers}

abbrev as_is : List ℕ → List ℕ
as_is bytes = bytes

read_shell :
    read_path as_is booted (codes "/docs/shell.txt")
    ≡ ok (codes "cd, pwd, ls, cat -- navigation over ZranFS v3.\n")
unfolding boot_image read_path slice read_u32_le
read_shell = refl

mount-layers_example : (mount_loose boot_image ≡ ok booted) × (mount_tier2 boot_image ≡ ok booted)
mount-layers_example = mount-layers boot_image booted mount_boot

mount_inner-ne-panic_example : mount_inner boot_image true false ≢ panic
mount_inner-ne-panic_example = mount_inner-ne-panic boot_image true false

mount_strict : mount_inner boot_image true false ≡ ok booted
unfolding mount
mount_strict = mount_boot

mount_inner-Mounted_example : Mounted true booted × (booted.image ≡ boot_image)
mount_inner-Mounted_example = mount_inner-Mounted boot_image true false booted mount_strict

read_path-Inside_example :
    Returns
      (Inside as_is booted (ceiling_of true booted.image))
      (read_path as_is booted (codes "/motd.txt"))
read_path-Inside_example =
    read_path-Inside as_is boot_image true false booted mount_strict (codes "/motd.txt")
