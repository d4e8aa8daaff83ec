-- ===== src/ProtoDiff/Kinds.antt =====
-- A directory that has become a file, and a file that has become a directory.
use p2p_file_sync.Prelude.{
  ℕ, ◌≡◌, refl, ap, ap₂, ◌∙◌, Bool, true, false, ◌||◌, Option, none, some, List, [], ◌∷◌, ◌++◌,
  append-nil, if◌then◌else◌,
}
use p2p_file_sync.Bytes.{bytes_equal}
use p2p_file_sync.Proto.Nodes.{
  ProtoInfo, ProtoNode, ProtoChildren, proto_node, no_more, proto_child,
}
use p2p_file_sync.ProtoDiff.{
  Differences, no_difference, proto_info, find_proto, followed_by, unless_found, child_path,
  only_remote, compare_nodes, diff_node, diff_names,
}

-- The path of a child, unless the map has a later one of its name.
abbrev pub kept : Option ProtoNode → List ℕ → List (List ℕ)
kept none path = path ∷ []
kept (some c) path = []

-- The paths of the children, each at the child that the map keeps.
abbrev pub deleted_below : ProtoChildren → List ℕ → List (List ℕ)
deleted_below no_more path = []
deleted_below (proto_child c cs) path =
    kept (find_proto (proto_info c).name cs) (child_path path (proto_info c).name)
    ++ deleted_below cs path

diff_node-none :
    (c : ProtoNode) (path : List ℕ)
    → diff_node c none path ≡ record { added = []; modified = []; deleted = path ∷ [] }
unfolding diff_node
diff_node-none (proto_node i cs) path = refl

abbrev removal : List ℕ → Differences
removal path = record { added = []; modified = []; deleted = path ∷ [] }

removal-followed :
    (o : Option ProtoNode) (p : List ℕ) (rest : List (List ℕ))
    → followed_by
        (unless_found o (removal p))
        (record { added = []; modified = []; deleted = rest })
      ≡ record { added = []; modified = []; deleted = kept o p ++ rest }
unfolding followed_by unless_found
removal-followed none p rest = refl
removal-followed (some c) p rest = refl

diff_names-no_more :
    (cs : ProtoChildren) (path : List ℕ)
    → diff_names cs no_more path
      ≡ record { added = []; modified = []; deleted = deleted_below cs path }
unfolding diff_names find_proto
diff_names-no_more no_more path = refl
diff_names-no_more (proto_child c cs) path =
    ap₂ (λ (d e : Differences). followed_by (unless_found (find_proto (proto_info c).name cs) d) e)
      (diff_node-none c (child_path path (proto_info c).name)) (diff_names-no_more cs path)
    ∙ removal-followed (find_proto (proto_info c).name cs) (child_path path (proto_info c).name)
        (deleted_below cs path)

compare_nodes-descends :
    (i j : ProtoInfo) (cs ds : ProtoChildren) (below : Differences)
    → bytes_equal i.hash j.hash ≡ false
    → (i.directory || j.directory) ≡ true
    → compare_nodes (proto_node i cs) (proto_node j ds) below ≡ below
unfolding compare_nodes
compare_nodes-descends i j cs ds below h k = rw h (
    ap
      (λ (b : Bool).
        if b then below else record { added = []; modified = proto_node j ds ∷ []; deleted = [] })
      k)

unless_found-adds :
    (o : Option ProtoNode) (e : Differences)
    → (e.modified ≡ []) × (e.deleted ≡ [])
    → ((unless_found o e).modified ≡ []) × ((unless_found o e).deleted ≡ [])
unfolding unless_found
unless_found-adds none e h = h
unless_found-adds (some c) e h = (refl, refl)

only_remote-adds :
    (ls ds : ProtoChildren)
    → ((only_remote ls ds).modified ≡ []) × ((only_remote ls ds).deleted ≡ [])
unfolding only_remote followed_by unless_found
only_remote-adds ls no_more = (refl, refl)
only_remote-adds ls (proto_child c cs) =
    let (m, d) = only_remote-adds ls cs in
    let here : Differences = record { added = c ∷ []; modified = []; deleted = [] } in
    let (n, f) =
      unless_found-adds (find_proto (proto_info c).name cs)
        (unless_found (find_proto (proto_info c).name ls) here)
        (unless_found-adds (find_proto (proto_info c).name ls) here (refl, refl)) in
    (ap₂ (λ (x y : List ProtoNode). x ++ y) n m, ap₂ (λ (x y : List (List ℕ)). x ++ y) f d)

-- Where a local directory has become a file, with another hash, the file is neither added nor
-- modified, and every child of the directory is deleted. Where a local file has become a directory,
-- nothing is modified or deleted: the file is not removed for the directory.
pub diff_node-kinds :
    (i j : ProtoInfo) (cs ds : ProtoChildren) (path : List ℕ)
    → bytes_equal i.hash j.hash ≡ false
    → (i.directory ≡ true
        → diff_node (proto_node i cs) (some (proto_node j no_more)) path
          ≡ record { added = []; modified = []; deleted = deleted_below cs path })
      × (j.directory ≡ true
          → ((diff_node (proto_node i no_more) (some (proto_node j ds)) path).modified ≡ [])
            × ((diff_node (proto_node i no_more) (some (proto_node j ds)) path).deleted ≡ []))
unfolding diff_node diff_names followed_by compare_nodes only_remote
diff_node-kinds i j cs ds path h = (
  λ k.
      compare_nodes-descends i j cs no_more (followed_by (diff_names cs no_more path) no_difference)
        h (ap (λ (b : Bool). b || j.directory) k)
      ∙ ap (λ (d : Differences). followed_by d no_difference) (diff_names-no_more cs path)
      ∙ ap (λ (l : List (List ℕ)). record { added = []; modified = []; deleted = l })
          (append-nil (deleted_below cs path)),
  λ k.
      let e =
        compare_nodes-descends i j no_more ds (followed_by no_difference (only_remote no_more ds)) h
          (or_true i.directory j.directory k) in
      let (m, d) = only_remote-adds no_more ds in
      (ap (λ (x : Differences). x.modified) e ∙ m, ap (λ (x : Differences). x.deleted) e ∙ d),
)
  where
    or_true : (a b : Bool) → b ≡ true → (a || b) ≡ true
    or_true true b e = refl
    or_true false b e = e
