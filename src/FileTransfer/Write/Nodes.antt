-- ===== src/FileTransfer/Write/Nodes.antt =====
-- What a change of one path does to the files.
use claude_distant.Common.{Bool-cases, Option, ap, arith, inl, inr, none, some, ◌≡◌, ◌≢◌}
use claude_distant.FileTransfer.Write.{Fs, Node, put_node}
use claude_distant.Text.{Text, equal}
use claude_distant.Text.Laws.{equal_iff, equal_refl}

pub put_node_self : (k : Text) (v : Option Node) (fs : Fs) → put_node k v fs k ≡ v
unfolding put_node
put_node_self k v fs = rw (equal_refl k)

pub put_node_kept :
    (k j : Text) (v : Option Node) (fs : Fs) (n : Node)
    → fs k ≡ none
    → fs j ≡ some n
    → put_node k v fs j ≡ some n
unfolding put_node
put_node_kept k j v fs n e h = elim (Bool-cases (equal j k)) [
  | inr other ↦ rw other h
  | inl same ↦ cc (e, h, ap fs ((equal_iff j k).0 same))
]

pub put_node_ne : (k j : Text) (v : Option Node) (fs : Fs) → j ≢ k → put_node k v fs j ≡ fs j
unfolding put_node
put_node_ne k j v fs h = elim (Bool-cases (equal j k)) [
  | inr other ↦ rw other
  | inl same ↦ absurd (h ((equal_iff j k).0 same))
]

pub put_node_twice :
    (k : Text) (v w : Option Node) (fs : Fs) (j : Text)
    → put_node k v (put_node k w fs) j ≡ put_node k v fs j
unfolding put_node
put_node_twice k v w fs j = ground arith
