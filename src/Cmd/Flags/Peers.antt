-- ===== src/Cmd/Flags/Peers.antt =====
-- `parsePeers` of cmd/broker/main.go reads the list that its error message asks for.
use trixps.Prelude.{
  ℕ, ◌≡◌, ◌≢◌, refl, sym, ap, ◌∙◌, false, some, inl, inr, List, [], ◌∷◌, ◌++◌, append_assoc,
  append-nil, All, ◌==◌, nat_eq, list_eq, list_beq-ne, Bool-cases, nat_beq_iff,
}
use trixps.Prelude.Text.{Text}
use trixps.Prelude.Decimal.{Lacks}
use trixps.Broker.Config.{Peer}
use trixps.Cmd.Flags.{split, trim_space, peer_of, parse_parts, parse_peers}

pub beq-ne : (b c : ℕ) → b ≢ c → (b == c) ≡ false
beq-ne b c apart = elim (Bool-cases (b == c)) [
  | inl same ↦ absurd (apart ((nat_beq_iff b c).0 same))
  | inr other ↦ other
]

split-Lacks : (c : ℕ) (x : Text) → Lacks c x → split c x ≡ x ∷ []
unfolding split
split-Lacks c [] h = refl
split-Lacks c (b ∷ x) h = rw (split, beq-ne b c h.0, split-Lacks c x h.1)

split-append : (c : ℕ) (x s : Text) → Lacks c x → split c (x ++ c ∷ s) ≡ x ∷ split c s
unfolding split
split-append c [] s h = rw (split, (nat_beq_iff c c).1 refl)
split-append c (b ∷ x) s h = rw (split, beq-ne b c h.0, split-append c x s h.1)

-- `id@raftAddr@rpcAddr`
abbrev pub entry : Peer → Text
entry p = p.id ++ (b'@' ∷ (p.raft_addr ++ b'@' ∷ p.rpc_addr))

-- The entries, with commas between them.
abbrev pub listed : Peer → List Peer → Text
listed p [] = entry p
listed p (q ∷ ps) = entry p ++ b',' ∷ listed q ps

-- A peer that can be listed: no separator in its fields, and no space at the ends of its entry.
pub record IsListable (p : Peer) : Type 0 where
  pub id : Lacks b'@' p.id
  pub raft_addr : Lacks b'@' p.raft_addr
  pub rpc_addr : Lacks b'@' p.rpc_addr
  pub commas : Lacks b',' (entry p)
  pub trimmed : trim_space (entry p) ≡ entry p

peer_of-entry : (p : Peer) → IsListable p → peer_of (split b'@' (entry p)) ≡ some p
peer_of-entry p h = ap peer_of (
    split-append b'@' p.id (p.raft_addr ++ b'@' ∷ p.rpc_addr) h.id
    ∙ ap (λ (l : List Text). p.id ∷ l)
        (split-append b'@' p.raft_addr p.rpc_addr h.raft_addr
          ∙ ap (λ (l : List Text). p.raft_addr ∷ l) (split-Lacks b'@' p.rpc_addr h.rpc_addr)))

entry-ne-nil : (x s : Text) (c : ℕ) → x ++ c ∷ s ≢ []
entry-ne-nil [] s c e = cc e
entry-ne-nil (b ∷ x) s c e = cc e

abbrev entries : List Peer → List Text
entries [] = []
entries (p ∷ ps) = entry p ∷ entries ps

split-listed :
    (p : Peer) (ps : List Peer)
    → All IsListable (p ∷ ps)
    → split b',' (listed p ps) ≡ entries (p ∷ ps)
split-listed p [] h = split-Lacks b',' (entry p) h.0.commas
split-listed p (q ∷ ps) h =
    split-append b',' (entry p) (listed q ps) h.0.commas
    ∙ ap (λ (l : List Text). entry p ∷ l) (split-listed q ps h.1)

parse_parts-entries :
    (ps before : List Peer)
    → All IsListable ps
    → parse_parts (entries ps) before ≡ inl (before ++ ps)
unfolding parse_parts
parse_parts-entries [] before h = ap inl (sym (append-nil before))
parse_parts-entries (p ∷ ps) before h =
    let filled : (entry p == []) ≡ false =
      list_beq-ne (entry p) [] (entry-ne-nil p.id (p.raft_addr ++ b'@' ∷ p.rpc_addr) b'@') in
    let kept : (trim_space (entry p) == []) ≡ false =
      ap (λ (t : Text). t == []) h.0.trimmed ∙ filled in
    let read : peer_of (split b'@' (trim_space (entry p))) ≡ some p =
      ap (λ (t : Text). peer_of (split b'@' t)) h.0.trimmed ∙ peer_of-entry p h.0 in
    rw (parse_parts, kept, read)
      (parse_parts-entries ps (before ++ (p ∷ [])) h.1 ∙ ap inl (append_assoc before (p ∷ []) ps))

-- Peers that can be listed are read back from their list, all and in order.
pub parse_peers-listed :
    (p : Peer) (ps : List Peer) → All IsListable (p ∷ ps) → parse_peers (listed p ps) ≡ inl (p ∷ ps)
unfolding parse_peers
parse_peers-listed p ps h =
    ap (λ (l : List Text). parse_parts l []) (split-listed p ps h)
    ∙ parse_parts-entries (p ∷ ps) [] h
