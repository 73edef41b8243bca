-- ===== src/Nexofs/Blocks/Laws.antt =====
-- Allocation and names of libraries/nexofs/src/lib.rs.
use nexo_os.Prelude.{
  ℕ, zero, suc, ◌+◌, ◌-◌, ◌*◌, ◌/◌, ◌%◌, ◌^◌, ◌≤◌, ◌<◌, ◌≡◌, refl, sym, ◌∙◌, inl, inr, Bool, true,
  false, ◌&&◌, Option, some, none, Result, ok, err, arith, leb, ltb, ◌==◌, if◌then◌else◌,
  Bool-cases, Option-cases, List, length, All,
}
use nexo_os.Nexofs.Blocks.Masks.{bit-set_bit, set_bit-All, length-set_bit}
use nexo_os.Nexofs.{inode_size, block_size, no_space, FsError}
use nexo_os.Nexofs.Codec.{Superblock, is_geometry}
use nexo_os.Nexofs.Blocks.{
  Volume, bit, set_bit, first_free, alloc_block, free_block, count_free, free_blocks, inode_pos,
}

-- The first free block of a range, or that there is none.
abbrev IsFirst : List ℕ → ℕ → ℕ → Option ℕ → Type 0
IsFirst bitmap b n none = (i : ℕ) → b ≤ i → i < b + n → bit bitmap i ≡ true
IsFirst bitmap b n (some k) =
    (b ≤ k) × (k < b + n) × (bit bitmap k ≡ false) × ((i : ℕ) → b ≤ i → i < k → bit bitmap i ≡ true)

further :
    (bitmap : List ℕ) (b n : ℕ) (o : Option ℕ)
    → bit bitmap b ≡ true
    → IsFirst bitmap (b + 1) n o
    → IsFirst bitmap b (suc n) o
further bitmap b n none h w = λ i l r. elim (Bool-cases (b == i)) [
  | inl e ↦ ground arith
  | inr e ↦ w i (ground arith) (omega arith)
]
further bitmap b n (some k) h (a, c, d, w) = (
  omega arith,
  omega arith,
  d,
  λ i l r. elim (Bool-cases (b == i)) [ inl e ↦ ground arith | inr e ↦ w i (ground arith) r ],
)

first_free-IsFirst : (bitmap : List ℕ) (b n : ℕ) → IsFirst bitmap b n (first_free bitmap b n)
unfolding first_free
first_free-IsFirst bitmap b zero = λ i l r. absurd (omega arith)
first_free-IsFirst bitmap b (suc n) = elim (Bool-cases (bit bitmap b)) [
  | inl e ↦ rw e (further bitmap b n _ e (first_free-IsFirst bitmap (b + 1) n))
  | inr e ↦ rw e (omega arith, omega arith, e, λ i l r. absurd (omega arith))
]

-- A block that is taken is free no more, and all others count as before.
count_free-set :
    (bitmap bitmap' : List ℕ) (k b n : ℕ)
    → bit bitmap k ≡ false
    → ((i : ℕ) → bit bitmap' i ≡ (if k == i then true else bit bitmap i))
    → count_free bitmap b n ≡ count_free bitmap' b n + (if leb b k && ltb k (b + n) then 1 else 0)
unfolding count_free
count_free-set bitmap bitmap' k b zero h w = ground arith
count_free-set bitmap bitmap' k b (suc n) h w =
    let e = w b in
    elim (Bool-cases (k == b)) [
      | inl q ↦
          let s : k ≡ b = ground arith in
          let h' : bit bitmap b ≡ false = rw s at h in
          ground (arith, count_free-set bitmap bitmap' k (b + 1) n h w)
      | inr q ↦ ground (arith, count_free-set bitmap bitmap' k (b + 1) n h w)
    ]

-- The bitmap is made of bytes and has a bit for every block.
abbrev pub IsMapped : Volume → Type 0
IsMapped v = All (λ x. x < 256) v.bitmap × (v.sb.total_blocks ≤ 8 * length v.bitmap)

-- What `alloc_block` may answer.
abbrev pub IsAllocated : Volume → Result FsError (Volume × ℕ) → Type 0
IsAllocated v (ok (v', b)) =
    (v.sb.data_start ≤ b)
    × (b < v.sb.total_blocks)
    × (bit v.bitmap b ≡ false)
    × ((i : ℕ) → bit v'.bitmap i ≡ (if b == i then true else bit v.bitmap i))
    × (free_blocks v ≡ free_blocks v' + 1)
    × ((i : ℕ) → bit (free_block v' b).bitmap i ≡ bit v.bitmap i)
    × IsMapped v'
IsAllocated v (err e) =
    (e ≡ no_space) × ((i : ℕ) → v.sb.data_start ≤ i → i < v.sb.total_blocks → bit v.bitmap i ≡ true)

free_block-set_bit :
    (v : Volume) (b : ℕ)
    → (leb v.sb.data_start b && ltb b v.sb.total_blocks) ≡ true
    → free_block v b ≡ set_bit v b false
unfolding free_block
free_block-set_bit v b t = rw t refl

-- A bit that was clear is set and cleared again.
cleared :
    (b i : ℕ) (p q r : Bool)
    → (b ≡ i → p ≡ false)
    → q ≡ (if b == i then true else p)
    → r ≡ (if b == i then false else q)
    → r ≡ p
cleared b i p q r f g h = ground arith

allocated :
    (v : Volume) (b : ℕ)
    → IsMapped v
    → v.sb.data_start ≤ b
    → b < v.sb.total_blocks
    → bit v.bitmap b ≡ false
    → IsAllocated v (ok (set_bit v b true, b))
unfolding set_bit free_blocks
allocated v b (w, l) s t f =
    let v' = set_bit v b true in
    let n = v.sb.total_blocks - v.sb.data_start in
    let fits : b < 8 * length v.bitmap = omega arith in
    let on = λ (i : ℕ). bit-set_bit v b i true w fits in
    let w' = set_bit-All v b true w fits in
    let len = length-set_bit v b true in
    let off = λ (i : ℕ). bit-set_bit v' b i false w' (rw len fits) in
    let undone = free_block-set_bit v' b (ground arith) in
    (
      s,
      t,
      f,
      on,
      ground (arith, count_free-set v.bitmap v'.bitmap b v.sb.data_start n f on),
      λ i. rw undone (
          cleared b i (bit v.bitmap i) (bit v'.bitmap i) _
            (λ q. let g : bit v.bitmap i ≡ false = rw q at f in g) (on i) (off i)),
      (w', rw len l),
    )

-- With a bitmap that has a bit for every block, a block that is handed out was free and is a data
-- block, never one of the superblock, the bitmap or the inodes; of all bits only its own changes, one
-- block less is free, and giving it back restores every bit. None is handed out only if no data block
-- is free.
pub alloc_block-IsAllocated : (v : Volume) → IsMapped v → IsAllocated v (alloc_block v)
unfolding alloc_block
alloc_block-IsAllocated v m =
    let n = v.sb.total_blocks - v.sb.data_start in
    let w = first_free-IsFirst v.bitmap v.sb.data_start n in
    elim (Option-cases (first_free v.bitmap v.sb.data_start n)) [
      | inl e ↦
          let w' : IsFirst v.bitmap v.sb.data_start n none = rw e at w in
          rw (alloc_block, e) (refl, λ i a b. w' i a (omega arith))
      | inr (b, e) ↦
          let (l, r, f, u) : IsFirst v.bitmap v.sb.data_start n (some b) = rw e at w in
          rw (alloc_block, e) (allocated v b m l (omega arith) f)
    ]

-- A block and an offset of an inode, in the table and for no other inode.
abbrev pub IsPosition : Superblock → ℕ → ℕ × ℕ → Type 0
IsPosition sb ino (blk, off) =
    (sb.inode_start ≤ blk)
    × (blk < sb.data_start)
    × (off + inode_size ≤ block_size)
    × ((other : ℕ) → inode_pos sb other ≡ ok (blk, off) → other ≡ ino)

geometry_table :
    (sb : Superblock)
    → is_geometry sb ≡ true
    → sb.inode_count < 2 ^ 32
    → (sb.data_start ≡ sb.inode_start + sb.inode_blocks)
      × (sb.inode_count * inode_size ≤ sb.inode_blocks * block_size)
unfolding is_geometry
geometry_table sb g h = ground arith

slots_differ :
    (s a b : ℕ)
    → s + a * inode_size / block_size ≡ s + b * inode_size / block_size
    → a * inode_size % block_size ≡ b * inode_size % block_size
    → a ≡ b
slots_differ s a b e f = omega arith

inode_pos-lt :
    (sb : Superblock) (a x y : ℕ)
    → inode_pos sb a ≡ ok (x, y)
    → (a < sb.inode_count)
      × (sb.inode_start + a * inode_size / block_size ≡ x)
      × (a * inode_size % block_size ≡ y)
unfolding inode_pos
inode_pos-lt sb a x y e = ground arith

-- In a volume with a valid superblock the slot of an inode lies wholly in one block of the inode
-- table, so not in the bitmap or the data, and no two inodes share a slot.
pub inode_pos-IsPosition :
    (sb : Superblock) (ino : ℕ) {blk off : ℕ}
    → is_geometry sb ≡ true
    → sb.inode_count < 2 ^ 32
    → inode_pos sb ino ≡ ok (blk, off)
    → IsPosition sb ino (blk, off)
inode_pos-IsPosition sb ino {blk} {off} g h e =
    let (d, t) = geometry_table sb g h in
    let (l, x, y) = inode_pos-lt sb ino blk off e in
    (
      omega arith,
      omega arith,
      omega arith,
      λ other k.
          let (l', x', y') = inode_pos-lt sb other blk off k in
          slots_differ sb.inode_start other ino (x' ∙ sym x) (y' ∙ sym y),
    )
