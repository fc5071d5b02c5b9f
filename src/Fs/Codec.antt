-- ===== src/Fs/Codec.antt =====
-- The superblock and the inodes of kernel/fs.c as bytes: what is encoded decodes to itself.
use bumbel_bee.Base.{
  ℕ, zero, suc, ◌+◌, ◌≤◌, ◌<◌, ◌≡◌, ◌≢◌, refl, ◌∙◌, ap, ap₂, List, [], ◌∷◌, Array, ne→==, write,
  write_self, write_ne, length, inr, arith,
}
use Prim.{Unit}
use bumbel_bee.Data.{Superblock, Inode}
use bumbel_bee.Bytes.{
  load_fields, load_fields_below, load_fields-store_fields, store_fields_outside, values,
  store_bytes, store_bytes_outside, Fits,
}
use bumbel_bee.Strings.{string_at}
use bumbel_bee.Fs.Layout.{
  zeros, superblock_fields, encode_superblock, decode_superblock, inode_fields, encode_inode,
  decode_inode, name_offset, name_size,
}

-- The element at an index of a list of numbers.
unfoldable pub field : ℕ → List ℕ → ℕ
field n [] = 0
field zero (x ∷ xs) = x
field (suc n) (x ∷ xs) = field n xs

superblock_at : List ℕ → Superblock
unfolding field
superblock_at l = record {
  magic = field 0 l;
  version = field 1 l;
  total_sectors = field 2 l;
  inode_count = field 3 l;
  inode_table_lba = field 4 l;
  data_start_lba = field 5 l;
  next_free_lba = field 6 l;
  next_session_id = field 7 l;
}

inode_at : List ℕ → List ℕ → Inode
unfolding field
inode_at l name = record {
  used = field 0 l;
  type = field 1 l;
  session_id = field 2 l;
  size_bytes = field 3 l;
  profile_id = field 4 l;
  start_lba = field 5 l;
  sector_count = field 6 l;
  created_ticks = field 7 l;
  duration_ticks = field 8 l;
  event_count = field 9 l;
  sequence_hash = field 10 l;
  name = name;
}

pub superblock_round_trip :
    (b : Superblock) (m : Array ℕ)
    → Fits (superblock_fields b)
    → ((x : ℕ) → x < 32 → m x ≡ encode_superblock b x)
    → decode_superblock m ≡ b
unfolding decode_superblock superblock_at load_fields
superblock_round_trip b m fits same = ap superblock_at (
    load_fields_below (superblock_fields b) m (encode_superblock b) 0
      (λ x p q. same x (omega arith))
    ∙ load_fields-store_fields (superblock_fields b) zeros 0 fits)

-- A string has no terminator inside.
unfoldable pub IsText : List ℕ → Type 0
IsText [] = Unit
IsText (b ∷ bs) = (b ≢ 0) × IsText bs

string_at-store_bytes :
    (bs : List ℕ) (n : ℕ) (m base : Array ℕ) (a : ℕ)
    → length bs < n
    → IsText bs
    → ((x : ℕ) → a ≤ x → base x ≡ 0)
    → ((x : ℕ) → a ≤ x → x < a + n → m x ≡ store_bytes base a bs x)
    → string_at n m a ≡ bs
unfolding string_at store_bytes IsText
string_at-store_bytes bs zero m base a fits text clear same = absurd (omega arith)
string_at-store_bytes [] (suc n) m base a fits text clear same =
    let end : m a ≡ 0 = same a (omega arith) (omega arith) ∙ clear a (omega arith) in rw end refl
string_at-store_bytes (b ∷ bs) (suc n) m base a fits (some_byte, text) clear same =
    let first : m a ≡ b =
      same a (omega arith) (omega arith)
      ∙ store_bytes_outside bs (write base a b) (a + 1) a (omega arith)
      ∙ write_self base a b in
    let rest =
      string_at-store_bytes bs n m (write base a b) (a + 1) (omega arith) text
        (λ x p. write_ne base a x b (omega arith) ∙ clear x (omega arith))
        (λ x p q. same x (omega arith) (omega arith)) in
    rw (first, ne→== b 0 some_byte) (ap (λ l. b ∷ l) rest)

pub inode_round_trip :
    (n : Inode) (m : Array ℕ)
    → Fits (inode_fields n)
    → IsText n.name
    → length n.name < name_size
    → ((x : ℕ) → x < 128 → m x ≡ encode_inode n x)
    → decode_inode m ≡ n
unfolding decode_inode inode_at load_fields
inode_round_trip n m fits text short same =
    let base = store_bytes zeros name_offset n.name in
    let numbers : load_fields (inode_fields n) m 0 ≡ values (inode_fields n) =
      load_fields_below (inode_fields n) m (encode_inode n) 0 (λ x p q. same x (omega arith))
      ∙ load_fields-store_fields (inode_fields n) base 0 fits in
    let name : string_at name_size m name_offset ≡ n.name =
      string_at-store_bytes n.name name_size m zeros name_offset short text (λ x p. refl)
        (λ x p q.
          same x (omega arith)
          ∙ store_fields_outside (inode_fields n) base 0 x (inr (omega arith))) in
    ap₂ inode_at numbers name
