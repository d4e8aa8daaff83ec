-- ===== src/Merkle/Build.antt =====
-- The constructors and the hashing of internal/merkle/tree.go. SHA-256 is the parameter `sha256`, a
-- function of all bytes written to the hasher. sort.Slice is an insertion sort; of children with
-- the same name, whose order Go leaves open, the first stays first.
use p2p_file_sync.Prelude.{
  ℕ, ◌+◌, ◌*◌, ◌%◌, ◌^◌, Bool, true, false, ◌&&◌, ◌||◌, List, [], ◌∷◌, ◌++◌, if◌then◌else◌, ltb,
  ◌==◌, length,
}
use p2p_file_sync.Merkle.{Node, Children, node_type_file, node_type_dir, node, end, child, info}

-- `<` of Go strings.
unfoldable pub string_less : List ℕ → List ℕ → Bool
string_less [] [] = false
string_less [] (y ∷ ys) = true
string_less (x ∷ xs) [] = false
string_less (x ∷ xs) (y ∷ ys) = ltb x y || ((x == y) && string_less xs ys)

-- sort.Slice by name.
unfoldable pub insert_child : Node → Children → Children
insert_child c end = child c end
insert_child c (child d ds) =
    if string_less (info d).name (info c).name
    then child d (insert_child c ds)
    else child c (child d ds)

unfoldable pub sort_children : Children → Children
sort_children end = end
sort_children (child c cs) = insert_child c (sort_children cs)

-- What computeFileHash writes to the hasher.
unfoldable pub file_hash_input : List (List ℕ) → List ℕ
file_hash_input [] = []
file_hash_input (h ∷ hs) = h ++ file_hash_input hs

-- What computeDirHash writes to the hasher, and the size that it adds up, in uint64.
unfoldable pub dir_hash_input : Children → List ℕ
dir_hash_input end = []
dir_hash_input (child c cs) = (info c).name ++ ((info c).hash ++ dir_hash_input cs)

unfoldable pub dir_size : ℕ → Children → ℕ
dir_size total end = total
dir_size total (child c cs) = dir_size ((total + (info c).size) % 2 ^ 64) cs

module _ (sha256 : List ℕ → List ℕ) where
  -- Node.computeFileHash
  unfoldable pub compute_file_hash : Node → Node
  compute_file_hash (node i cs) =
      node
        (record i {
          size = length i.chunks * 4096 % 2 ^ 64;
          hash = sha256 (file_hash_input i.chunks);
        })
        cs

  -- Node.computeDirHash
  unfoldable pub compute_dir_hash : Node → Node
  compute_dir_hash (node i cs) =
      node (record i { size = dir_size 0 cs; hash = sha256 (dir_hash_input cs) }) cs

  -- NewFileNode
  unfoldable pub new_file_node : List ℕ → ℕ → List (List ℕ) → Node
  unfolding compute_file_hash
  new_file_node name mode chunks = compute_file_hash (
      node
        (record {
          name = name;
          kind = node_type_file;
          hash = [];
          mode = mode;
          size = 0;
          chunks = chunks;
        })
        end)

  -- NewDirNode
  unfoldable pub new_dir_node : List ℕ → ℕ → Children → Node
  unfolding compute_dir_hash sort_children
  new_dir_node name mode cs = compute_dir_hash (
      node
        (record {
          name = name;
          kind = node_type_dir;
          hash = [];
          mode = mode;
          size = 0;
          chunks = [];
        })
        (sort_children cs))

  -- Node.Rehash
  unfoldable pub rehash : Node → Node
  unfolding compute_file_hash compute_dir_hash sort_children
  rehash (node i cs) = elim i.kind [
    | node_type_file ↦ compute_file_hash (node i cs)
    | node_type_dir ↦ compute_dir_hash (node i (sort_children cs))
  ]
