-- ===== src/Fs/Messages.antt =====
-- The error messages of src/kernel/fs.c.
use openkernel.Base.{Option, none, some, Text, codes}
use openkernel.Fs.{
  Error, not_found, exists, not_dir, not_file, not_txt, no_space, invalid, full, not_empty, fault,
}

-- `none` is FS_OK; `fault` is no code of fs.h.
unfoldable pub fs_strerror : Option Error → Text
fs_strerror none = codes "OK"
fs_strerror (some not_found) = codes "Not found"
fs_strerror (some exists) = codes "Already exists"
fs_strerror (some not_dir) = codes "Not a directory"
fs_strerror (some not_file) = codes "Not a file"
fs_strerror (some not_txt) = codes "Only .txt files are supported"
fs_strerror (some no_space) = codes "Out of memory or file too large"
fs_strerror (some invalid) = codes "Invalid path or name"
fs_strerror (some full) = codes "Filesystem full"
fs_strerror (some not_empty) = codes "Directory not empty"
fs_strerror (some fault) = codes "Unknown error"
