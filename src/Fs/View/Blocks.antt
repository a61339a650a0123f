-- ===== src/Fs/View/Blocks.antt =====
-- The bytes of a file in the view: those of its chain.
use ecs150_project.Disk.State.{block_size}
use ecs150_project.Fs.Calls.Geometry.{get_or-past, get_or-InRange}
use ecs150_project.Fs.Calls.Read.{HasChain, file_content}
use ecs150_project.Fs.Fat.Chain.{find_data_block-get_or}
use ecs150_project.Fs.State.{State, eoc}
use ecs150_project.Fs.View.{file_view, contents_of, Contents}
use ecs150_project.Prelude.{
  ℕ, ◌*◌, ◌/◌, ◌≤◌, ◌<◌, ◌≡◌, sym, ap, ◌∙◌, fun_ext, inl, inr, Option, none, some, List, arith,
  ltb→lt, Bool-cases, ltb,
}
use ecs150_project.Prelude.Lists.{length}

module _ (s : State) (f : ℕ) {bs : List ℕ} (small : s.sb.num_data_blocks ≤ eoc)
    (c : HasChain s f bs) where
  pub bytes-inside :
      (p : ℕ) → p < length bs * block_size → (file_view s f).bytes p ≡ some (file_content s f p)
  unfolding contents_of
  bytes-inside p h = ground (
    arith,
    find_data_block-get_or (p / block_size) c,
    get_or-InRange s.sb.num_data_blocks bs (p / block_size) c.in_range (omega arith),
  )

  pub bytes-outside : (p : ℕ) → length bs * block_size ≤ p → (file_view s f).bytes p ≡ none
  unfolding contents_of
  bytes-outside p h = ground (
    arith,
    find_data_block-get_or (p / block_size) c,
    get_or-past bs (p / block_size) (omega arith),
  )

pub contents-eq : (c c' : Contents) → c'.size ≡ c.size → c'.bytes ≡ c.bytes → c' ≡ c
contents-eq c c' size bytes = ap contents_of_size size ∙ ap contents_of_bytes bytes
  where
    contents_of_size : ℕ → Contents
    contents_of_size n = record { size = n; bytes = c'.bytes }

    contents_of_bytes : (ℕ → Option ℕ) → Contents
    contents_of_bytes b = record { size = c.size; bytes = b }

-- A file with the same size, the same number of blocks and the same bytes in them looks the same.
pub file_view-same :
    (s s' : State) (f : ℕ) {bs : List ℕ}
    → s.sb.num_data_blocks ≤ eoc
    → s'.sb.num_data_blocks ≤ eoc
    → HasChain s f bs
    → HasChain s' f bs
    → (s'.root f).file_size ≡ (s.root f).file_size
    → ((p : ℕ) → p < length bs * block_size → file_content s' f p ≡ file_content s f p)
    → file_view s' f ≡ file_view s f
unfolding contents_of
file_view-same s s' f {bs} small small' c c' size same =
    contents-eq (file_view s f) (file_view s' f) size (fun_ext bytes_same)
  where
    bytes_same : (p : ℕ) → (file_view s' f).bytes p ≡ (file_view s f).bytes p
    bytes_same p = elim (Bool-cases (ltb p (length bs * block_size))) [
      | inl inside ↦
          bytes-inside s' f small' c' p (ltb→lt _ _ inside)
          ∙ (ap some (same p (ltb→lt _ _ inside))
              ∙ sym (bytes-inside s f small c p (ltb→lt _ _ inside)))
      | inr outside ↦
          bytes-outside s' f small' c' p (ground arith)
          ∙ sym (bytes-outside s f small c p (ground arith))
    ]
