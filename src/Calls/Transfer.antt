-- ===== src/Calls/Transfer.antt =====
-- `read` and `write` through the jump tables.
use illinix_operating_system.Base.{
  ℕ, ◌+◌, ◌-◌, ◌^◌, ◌≤◌, ◌<◌, ◌≡◌, ◌⊎◌, refl, arith, false, some, List, length, Reader, ◌>>=◌, ap,
  ◌∙◌, minus_one, min, offset_by,
}
use illinix_operating_system.Pcb.{Pcb, terminal_output, directory, file, bad_fd}
use illinix_operating_system.Terminal.Shown.{shown, terminal_write-shown}
use illinix_operating_system.Filesys.{file_read, dir_read, move_to, dentry_at}
use illinix_operating_system.Filesys.Content.{IsFile, IsChunk}
use illinix_operating_system.Filesys.Reading.{file_read_lem, IsEntry, IsListed, dir_read_lem}
use illinix_operating_system.Strings.Copy.{IsField}
use illinix_operating_system.Calls.{
  Devices, Surroundings, call_returns, read, write, close, read_through, write_through, or_fault,
}

-- Descriptor 1 of the process leads to the terminal.
pub record HasOutput (p : Pcb) : Type 0 where
  pub used : (p.fd_array 1).flags ≡ 1
  pub operations : (p.fd_array 1).file_operations ≡ terminal_output

-- A write of `n` characters to descriptor 1 returns `n` and shows them on the screen.
pub write-shown :
    (w : Surroundings) (p : Pcb) (d : Devices) (buf : Reader) (c : ℕ → ℕ) (k n : ℕ)
    → HasOutput p
    → n < 2 ^ 31
    → ((j : ℕ) → j < n → buf j ≡ some (c (k + j)))
    → write w p d 1 buf n
      ≡ some
          (n, record d { terminal = record d.terminal { screen = shown n c k d.terminal.screen } })
unfolding write write_through
write-shown w p d buf c k n o small h =
    rw (o.used, o.operations, terminal_write-shown n buf c k d.terminal small h, ◌>>=◌) refl

read-file_read :
    (disk : Reader) (w : Surroundings) (p : Pcb) (d : Devices) (fd : ℕ) (buf : List ℕ) (count : ℕ)
    → fd < 8
    → (p.fd_array fd).flags ≡ 1
    → (p.fd_array fd).file_operations ≡ file
    → read disk w p d fd buf count ≡ or_fault buf d (file_read disk p fd buf count)
unfolding read read_through
read-file_read disk w p d fd buf count h used ops =
    let good : bad_fd fd ≡ false = ground arith in rw (good, used, ops) refl

-- A read of a descriptor that is in use for a file is the read of the file.
pub read-file :
    (disk : Reader) (w : Surroundings) (p : Pcb) (d : Devices) (fd size : ℕ) (content : ℕ → ℕ)
    (buf : List ℕ) (count : ℕ)
    → fd < 8
    → (p.fd_array fd).flags ≡ 1
    → (p.fd_array fd).file_operations ≡ file
    → IsFile disk (p.fd_array fd).inode_num size content
    → let offset = (p.fd_array fd).file_pos in
      let n = min count (size - offset) in
      n ≤ length buf
      → (out : List ℕ) × (read disk w p d fd buf count
          ≡ call_returns n out (move_to p fd (offset + n)) d)
        × IsChunk content offset 0 n buf out
unfolding or_fault
read-file disk w p d fd size content buf count h used ops f fits =
    let (out, eq, c) = file_read_lem disk p fd size content buf count h f fits in
    (out, read-file_read disk w p d fd buf count h used ops ∙ ap (or_fault buf d) eq, c)

-- A descriptor outside the array, or one that is not in use, is refused by every call that takes
-- it: `read`, `write` and `close` return -1 and change neither the descriptors nor the buffer
-- nor a device.
pub refused :
    (disk : Reader) (w : Surroundings) (p : Pcb) (d : Devices) (fd : ℕ) (buf : List ℕ)
    (bytes : Reader) (count : ℕ)
    → (8 ≤ fd) ⊎ ((p.fd_array fd).flags ≡ 0)
    → (read disk w p d fd buf count ≡ call_returns minus_one buf p d)
      × (write w p d fd bytes count ≡ some (minus_one, d))
      × (close p d fd ≡ (minus_one, p, d))
unfolding read write close
refused disk w p d fd buf bytes count h = ground arith

read-dir_read :
    (disk : Reader) (w : Surroundings) (p : Pcb) (d : Devices) (fd : ℕ) (buf : List ℕ) (count : ℕ)
    → fd < 8
    → (p.fd_array fd).flags ≡ 1
    → (p.fd_array fd).file_operations ≡ directory
    → read disk w p d fd buf count ≡ or_fault buf d (dir_read disk p fd buf count w.junk_dentry)
unfolding read read_through
read-dir_read disk w p d fd buf count h used ops =
    let good : bad_fd fd ≡ false = ground arith in rw (good, used, ops) refl

-- A read of a descriptor that is in use for the directory is the read of the next entry.
pub read-directory :
    (disk : Reader) (w : Surroundings) (p : Pcb) (d : Devices) (fd m file_type inode_num : ℕ)
    (buf : List ℕ) (nbytes : ℕ)
    → fd < 8
    → (p.fd_array fd).flags ≡ 1
    → (p.fd_array fd).file_operations ≡ directory
    → let position = (p.fd_array fd).file_pos in
      position ≤ 63
      → 32 ≤ length w.junk_dentry.file_name
      → IsEntry disk position m file_type inode_num
      → nbytes < 2 ^ 31
      → 32 ≤ length buf
      → (out name : List ℕ) × (read disk w p d fd buf nbytes
          ≡ call_returns (min m nbytes) out (move_to p fd (position + 1)) d)
        × IsField (offset_by disk (dentry_at position)) 32 m w.junk_dentry.file_name name
        × IsListed name 0 (min m nbytes) buf out
unfolding or_fault
read-directory disk w p d fd m file_type inode_num buf nbytes h used ops le room e lt fits =
    let (out, name, eq, field, l) =
      dir_read_lem disk p fd m file_type inode_num buf nbytes w.junk_dentry h le room e lt fits in
    (
      out,
      name,
      read-dir_read disk w p d fd buf nbytes h used ops ∙ ap (or_fault buf d) eq,
      field,
      l,
    )
