-- ===== src/ProtoDiff/Tests.antt =====
-- A directory with a file, and a file of the same name.
use p2p_file_sync.Prelude.{ℕ, ◌≡◌, refl, Bool, true, false, some, List, [], ◌∷◌}
use p2p_file_sync.Bytes.{bytes_equal, text_bytes}
use p2p_file_sync.Proto.Nodes.{ProtoInfo, ProtoChildren, proto_node, no_more, proto_child}
use p2p_file_sync.ProtoDiff.{diff_node}
use p2p_file_sync.ProtoDiff.Kinds.{deleted_below, diff_node-kinds}

abbrev notes : List ℕ
notes = text_bytes "notes"

abbrev named : Bool → List ℕ → List ℕ → ProtoInfo
named directory name hash = record {
  name = name;
  directory = directory;
  hash = hash;
  mode = 420;
  size = 0;
  chunks = [];
}

abbrev inside : ProtoChildren
inside = proto_child (proto_node (named false (text_bytes "a") (1 ∷ [])) no_more) no_more

differ : bytes_equal (named true notes (2 ∷ [])).hash (named false notes (3 ∷ [])).hash ≡ false
unfolding bytes_equal
differ = refl

diff_node-kinds_example :
    ((named true notes (2 ∷ [])).directory ≡ true
      → diff_node
          (proto_node (named true notes (2 ∷ [])) inside)
          (some (proto_node (named false notes (3 ∷ [])) no_more))
          notes
        ≡ record { added = []; modified = []; deleted = deleted_below inside notes })
    × ((named false notes (3 ∷ [])).directory ≡ true
        → ((diff_node
              (proto_node (named true notes (2 ∷ [])) no_more)
              (some (proto_node (named false notes (3 ∷ [])) inside))
              notes).modified
            ≡ [])
          × ((diff_node
                (proto_node (named true notes (2 ∷ [])) no_more)
                (some (proto_node (named false notes (3 ∷ [])) inside))
                notes).deleted
              ≡ []))
diff_node-kinds_example =
    diff_node-kinds (named true notes (2 ∷ [])) (named false notes (3 ∷ [])) inside inside notes
      differ
