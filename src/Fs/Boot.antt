-- ===== src/Fs/Boot.antt =====
-- `boot_image` of src/fs.rs mounts.
use ziran_os.Prelude.{◌≡◌, refl}
use ziran_os.Fs.Image.{ok, slice, read_u16_le, read_u32_le, checked_mul, checked_add}
use ziran_os.Fs.Mount.{Fs, mount}
use ziran_os.Fs.Writer.{boot_image}

abbrev pub booted : Fs
booted = record { image = boot_image; file_count = 4 }

pub mount_boot : mount boot_image ≡ ok booted
unfolding boot_image mount slice read_u16_le read_u32_le checked_mul checked_add
mount_boot = refl
