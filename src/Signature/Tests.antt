-- ===== src/Signature/Tests.antt =====
-- Signatures of concrete files.
use p2p_file_sync.Prelude.{ℕ, ◌≡◌, List, [], ◌∷◌, ok}
use p2p_file_sync.Stream.{of_list}
use p2p_file_sync.Pieces.{pieces}
use p2p_file_sync.Signature.{Signature, generate_signature, block_size_or_default}
use p2p_file_sync.Signature.Index.{IsIndexed}
use p2p_file_sync.Signature.Generated.{entry, generate_signature_lem}

abbrev total : List ℕ → List ℕ
total bytes = bytes

generate_signature_lem_example :
    (sig : Signature) × (generate_signature total (of_list (1 ∷ 2 ∷ 3 ∷ [])) 2 ≡ ok sig)
    × (sig.block_size ≡ 2)
    × (sig.file_size ≡ 3)
    × (sig.blocks ≡ entry total 0 (1 ∷ 2 ∷ []) ∷ entry total 1 (3 ∷ []) ∷ [])
    × IsIndexed sig
unfolding pieces block_size_or_default
generate_signature_lem_example = generate_signature_lem total (1 ∷ 2 ∷ 3 ∷ []) 2
