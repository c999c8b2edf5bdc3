-- ===== src/Cmd/Flags.antt =====
-- The lists in the flags of the programs: `parsePeers` of cmd/broker/main.go, and `splitCSV` of
-- cmd/producer/main.go, cmd/consumer/main.go and cmd/api/main.go, which is the same three times.
pub mod Peers
mod Tests
use trixps.Prelude.{
  ℕ, zero, suc, Bool, true, false, Option, none, some, ◌⊎◌, inl, inr, List, [], ◌∷◌, ◌++◌, length,
  ◌==◌, nat_eq, list_eq, if◌then◌else◌,
}
use trixps.Prelude.Text.{Text}
use trixps.Broker.Config.{Peer}

abbrev push : ℕ → List Text → List Text
push b [] = (b ∷ []) ∷ []
push b (x ∷ xs) = (b ∷ x) ∷ xs

-- `strings.Split` at one byte.
unfoldable pub split : ℕ → Text → List Text
split c [] = [] ∷ []
split c (b ∷ s) = let rest = split c s in if b == c then [] ∷ rest else push b rest

-- The runes that `unicode.IsSpace` accepts, in UTF-8.
abbrev spaces : List Text
spaces =
    (9 ∷ [])
    ∷ ((10 ∷ [])
        ∷ ((11 ∷ [])
            ∷ ((12 ∷ [])
                ∷ ((13 ∷ [])
                    ∷ ((32 ∷ [])
                        ∷ ((194 ∷ (133 ∷ []))
                            ∷ ((194 ∷ (160 ∷ []))
                                ∷ ((225 ∷ (154 ∷ (128 ∷ [])))
                                    ∷ ((226 ∷ (128 ∷ (128 ∷ [])))
                                        ∷ ((226 ∷ (128 ∷ (129 ∷ [])))
                                            ∷ ((226 ∷ (128 ∷ (130 ∷ [])))
                                                ∷ ((226 ∷ (128 ∷ (131 ∷ [])))
                                                    ∷ ((226 ∷ (128 ∷ (132 ∷ [])))
                                                        ∷ ((226 ∷ (128 ∷ (133 ∷ [])))
                                                            ∷ ((226 ∷ (128 ∷ (134 ∷ [])))
                                                            ∷ ((226 ∷ (128 ∷ (135 ∷ [])))
                                                            ∷ ((226 ∷ (128 ∷ (136 ∷ [])))
                                                            ∷ ((226 ∷ (128 ∷ (137 ∷ [])))
                                                            ∷ ((226 ∷ (128 ∷ (138 ∷ [])))
                                                            ∷ ((226 ∷ (128 ∷ (168 ∷ [])))
                                                            ∷ ((226 ∷ (128 ∷ (169 ∷ [])))
                                                            ∷ ((226 ∷ (128 ∷ (175 ∷ [])))
                                                            ∷ ((226 ∷ (129 ∷ (159 ∷ [])))
                                                            ∷ ((227 ∷ (128 ∷ (128 ∷ [])))
                                                            ∷ []))))))))))))))))))))))))

-- What stands behind a prefix.
abbrev after_prefix : Text → Text → Option Text
after_prefix [] s = some s
after_prefix (c ∷ p) [] = none
after_prefix (c ∷ p) (b ∷ s) = if b == c then after_prefix p s else none

-- What stands behind one of some prefixes.
abbrev after_any : List Text → Text → Option Text
after_any [] s = none
after_any (p ∷ ps) s = elim (after_prefix p s) [ some rest ↦ some rest | none ↦ after_any ps s ]

-- On fuel; each space takes a byte.
unfoldable pub trim_front : List Text → ℕ → Text → Text
trim_front ps zero s = s
trim_front ps (suc fuel) s = elim (after_any ps s) [
  | none ↦ s
  | some rest ↦ trim_front ps fuel rest
]

abbrev pub reverse_onto {ℓ} : {A : Type ℓ} → List A → List A → List A
reverse_onto [] ys = ys
reverse_onto (x ∷ xs) ys = reverse_onto xs (x ∷ ys)

abbrev reversed : List Text → List Text
reversed [] = []
reversed (t ∷ ts) = reverse_onto t [] ∷ reversed ts

-- `strings.TrimSpace`: in front, and then from the end.
unfoldable pub trim_space : Text → Text
unfolding trim_front
trim_space s =
    let rest = trim_front spaces (length s) s in
    reverse_onto (trim_front (reversed spaces) (length rest) (reverse_onto rest [])) []

unfoldable pub split_csv_parts : List Text → List Text
split_csv_parts [] = []
split_csv_parts (p ∷ ps) =
    let rest = split_csv_parts ps in let t = trim_space p in if t == [] then rest else t ∷ rest

unfoldable pub split_csv : Text → List Text
split_csv s = split_csv_parts (split b',' s)

-- `len(fields) != 3`
abbrev pub peer_of : List Text → Option Peer
peer_of (id ∷ (raft_addr ∷ (rpc_addr ∷ []))) =
    some (record { id = id; raft_addr = raft_addr; rpc_addr = rpc_addr })
peer_of fields = none

pub record ParseErr : Type 0 where
  pub part : Text

-- The loop of `parsePeers`.
unfoldable pub parse_parts : List Text → List Peer → List Peer ⊎ ParseErr
parse_parts [] peers = inl peers
parse_parts (p ∷ ps) peers =
    let part = trim_space p in
    elim (part == []) [
      | true ↦ parse_parts ps peers
      | false ↦ elim (peer_of (split b'@' part)) [
        | none ↦ inr (record { part = part })
        | some peer ↦ parse_parts ps (peers ++ peer ∷ [])
      ]
    ]

unfoldable pub parse_peers : Text → List Peer ⊎ ParseErr
parse_peers s = parse_parts (split b',' s) []
