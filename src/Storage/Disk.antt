-- ===== src/Storage/Disk.antt =====
-- The part of the data directory that one queue's log lives in: file contents by inode, the inode
-- that `<name>.log` names, the inode that `<name>.log.tmp` names, and the next inode to give out.
use queuemaxxing.Base.{
  ℕ, ◌+◌, ◌-◌, ◌≡◌, refl, Option, List, ◌++◌, length, take, drop, replicate, arith, ◌==◌,
  if◌then◌else◌, take-all, drop-all, append-nil, take-append_length, ==_refl, ne→==, ◌≢◌,
  length-append,
}

pub record Disk : Type 0 where
  pub inode : ℕ → List ℕ
  pub entry : Option ℕ
  pub temp : Option ℕ
  pub fresh : ℕ

-- os.File.WriteAt of `p` at `off`: a gap before `off` is filled with zeros
unfoldable pub write_at : List ℕ → ℕ → List ℕ → List ℕ
write_at contents off p =
    take off contents
    ++ (replicate (off - length contents) 0 ++ (p ++ drop (off + length p) contents))

-- os.File.Truncate to `size`
unfoldable pub truncate_to : List ℕ → ℕ → List ℕ
truncate_to contents size = take size contents ++ replicate (size - length contents) 0

unfoldable pub set_inode : Disk → ℕ → List ℕ → Disk
set_inode d i bytes = record d { inode = λ j. if i == j then bytes else d.inode j }

pub inode-set_inode : (d : Disk) (i : ℕ) (bytes : List ℕ) → (set_inode d i bytes).inode i ≡ bytes
unfolding set_inode
inode-set_inode d i bytes = rw (==_refl i)

pub inode-set_inode_ne :
    (d : Disk) (i j : ℕ) (bytes : List ℕ) → i ≢ j → (set_inode d i bytes).inode j ≡ d.inode j
unfolding set_inode
inode-set_inode_ne d i j bytes h = rw (ne→== i j h)

pub entry-set_inode : (d : Disk) (i : ℕ) (bytes : List ℕ) → (set_inode d i bytes).entry ≡ d.entry
unfolding set_inode
entry-set_inode d i bytes = refl

pub write_at-length : (a p : List ℕ) (n : ℕ) → n ≡ length a → write_at a n p ≡ a ++ p
unfolding write_at
write_at-length a p n h =
    rw (take-all n a (omega arith), gap, drop-all (n + length p) a (omega arith), append-nil p)
  where
    gap : n - length a ≡ 0
    gap = omega arith

pub truncate_to-append : (a p : List ℕ) (n : ℕ) → n ≡ length a → truncate_to (a ++ p) n ≡ a
unfolding truncate_to
truncate_to-append a p n h = rw (take-append_length a p n h, gap, append-nil a)
  where
    gap : n - length (a ++ p) ≡ 0
    gap = omega (arith, length-append a p)
