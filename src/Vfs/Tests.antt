-- ===== src/Vfs/Tests.antt =====
-- Files at small values, and the theorems there.
use yetanotheros.Common.{
  ◌%◌, true, ltb, if◌then◌else◌, ◌-◌, ◌^◌, ℕ, ◌<◌, ◌≡◌, refl, false, none, some, List, [], ◌∷◌,
  ◌++◌, arith, replicate, length,
}
use yetanotheros.Common.Outcome.{Outcome, ok, ◌>>=◌}
use yetanotheros.Common.Store.{write}
use yetanotheros.Vfs.Mounts.{Mount, get_root, get_by_path, vfs_mount, vfs_get, vfs_get-prefix}
use yetanotheros.Vfs.File.{FileNode, FileTable, put_file, vfs_open, vfs_file_dup, vfs_close}
use yetanotheros.Vfs.Lifetime.{dup, close, use_all, IsClosed, vfs_open-use_all-IsClosed}
use yetanotheros.Process.Files.{proc_get_vacant_fd, proc_get_file}
use yetanotheros.Vfs.Syscalls.{User, proc_lock, proc_unlock, syscall_open, syscall_open-full}
use yetanotheros.Vfs.Seek.{
  SeekResult, sought, overflow, no_file, bad_whence, seek_cur, seek_end, syscall_lseek,
}
use yetanotheros.Fat.Nodes.{FatNode}
use yetanotheros.Fat.Tests.{volume, directory}
use yetanotheros.Vfs.FatFile.{fat_file}
use yetanotheros.Vfs.Writing.{WriteResult, took}

-- "/dev", "/d" and "/dev/x"
abbrev dev : List ℕ
dev = 47 ∷ 100 ∷ 101 ∷ 118 ∷ []

abbrev mounts : List Mount
mounts = record { path = dev; super_node = 9 } ∷ record { path = []; super_node = 1 } ∷ []

mounted : vfs_mount dev 9 (record { path = []; super_node = 1 } ∷ []) ≡ ok mounts
unfolding vfs_mount
mounted = refl

found : vfs_get (dev ++ (47 ∷ 120 ∷ [])) mounts ≡ some (get_by_path 9 (47 ∷ 120 ∷ []))
unfolding vfs_get
found = refl

vfs_get-prefix_example : vfs_get (47 ∷ 100 ∷ []) mounts ≡ some (get_root 9)
vfs_get-prefix_example =
    vfs_get-prefix (47 ∷ 100 ∷ []) (101 ∷ 118 ∷ []) 9 (record { path = []; super_node = 1 } ∷ [])

abbrev no_files : FileTable
no_files = record { file = λ q. none; file_list = []; put_back = [] }

vfs_open-use_all-IsClosed_example :
    (s2 : FileTable) × (use_all (dup ∷ close ∷ close ∷ []) 700 (vfs_open 700 (some 5) no_files).0
      ≡ ok s2)
    × IsClosed no_files s2 700 5
vfs_open-use_all-IsClosed_example =
    vfs_open-use_all-IsClosed (dup ∷ close ∷ close ∷ []) no_files 700 5 tt (omega arith)

one_sector : (off : ℕ) → off % 512 < 512
one_sector off = omega arith

-- A file of 600 bytes in the root directory's place on a small FAT volume
abbrev fat_node : FatNode
fat_node = record {
  node = 800;
  is_dir = false;
  dir_cluster = 2;
  first_cluster = 2;
  ref = 1;
  hit = 1;
  leaves_dirty = true;
  name = [];
  num_bytes = 600;
  num_leaves = 0;
  leaves = replicate 16 0;
}

abbrev fat : FileNode
fat = fat_file volume directory fat_node (omega arith) one_sector

-- A process with all descriptors taken
abbrev busy : User
busy = record {
  files = record { opened_files = replicate 16 (some 3); mutex_held = false };
  table = no_files;
}

no_vacant : proc_get_vacant_fd (proc_lock busy.files) ≡ ok none
unfolding proc_get_vacant_fd
no_vacant = refl

syscall_open-full_example :
    (t : FileTable) × (syscall_open 700 (some 5) busy
      ≡ ok (record { files = proc_unlock (proc_lock busy.files); table = t }, none))
    × IsClosed no_files t 700 5
syscall_open-full_example = syscall_open-full 700 5 busy no_vacant

-- A node that takes 100 bytes at most
abbrev takes_some : ℕ → List ℕ → WriteResult
takes_some offset bytes = took (if ltb 100 (length bytes) then 100 else length bytes)

-- A process whose descriptor 0 is file object 700, of node 5, at offset 590
abbrev reader : User
reader = record {
  files = record { opened_files = some 700 ∷ replicate 15 none; mutex_held = false };
  table = put_file no_files 700 (record { node = 5; ref = 1; offset = 590 });
}

abbrev sought_to : ℕ → ℕ → Outcome SeekResult
sought_to offset whence = syscall_lseek (λ q. fat) 0 offset whence reader >>= λ r. ok r.1

-- Ten bytes back from the end
backwards : sought_to (2 ^ 64 - 10) seek_end ≡ ok (sought 590)
unfolding syscall_lseek proc_get_file vfs_file_dup write vfs_close
backwards = refl

-- A negative offset as user programs pass it, in 32 bits
not_extended : sought_to (2 ^ 32 - 10) seek_cur ≡ ok overflow
unfolding syscall_lseek proc_get_file vfs_file_dup write vfs_close
not_extended = refl

no_such_file : syscall_lseek (λ q. fat) 1 0 seek_cur reader ≡ ok (reader, no_file)
unfolding syscall_lseek proc_get_file
no_such_file = refl

no_such_whence : sought_to 0 7 ≡ ok bad_whence
unfolding syscall_lseek
no_such_whence = refl
