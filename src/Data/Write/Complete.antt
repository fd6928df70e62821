-- ===== src/Data/Write/Complete.antt =====
-- What is streamed to a writer is what `Serialize` returns.
use go_subtree.Prelude.{
  ℕ, zero, suc, ◌+◌, ◌-◌, ◌≡◌, refl, sym, ap, ◌∙◌, arith, Bool, true, false, Option, some, List, [],
  ◌∷◌, ◌++◌, append_assoc, append-nil, map, pos, length, length-append, get_elem?-middle,
  next_index, next_done,
}
use go_subtree.Hash.{Bytes, Platform}
use go_subtree.Node.{Node}
use go_subtree.Subtree.{Subtree}
use go_subtree.Bt.{Bt, Writer}
use go_subtree.Errors.{Result, ok}
use go_subtree.Data.{Data, first_is_placeholder, start_index, serialize_data, skips}
use go_subtree.Data.{Data, first_is_placeholder, start_index, serialize_data, skips}
use go_subtree.Data.Complete.{IsComplete, all_bytes, serialize_data-IsComplete}
use go_subtree.Data.Write.{
  write_transaction_chunk, write_range, write_between, write_transactions_to_writer,
}

pub skips_not :
    (platform : Platform) (bt : Bt) (i : ℕ) (nodes : List Node)
    → (i ≡ 0 → first_is_placeholder platform bt nodes ≡ ok false)
    → skips platform bt i nodes ≡ ok false
unfolding skips
skips_not platform bt zero nodes h = h refl
skips_not platform bt (suc i) nodes h = refl

module _ (platform : Platform) (bt : Bt) (writer : Writer bt) where
  open bt use {Tx, serialize_bytes}
  open writer use {Sink, written, write, write_lem, serialize_to, serialize_to_lem}

  -- No write fails.
  pub record NeverFails : Type 0 where
    pub write : (s : Sink) (b : Bytes) → (write s b).0 ≡ true
    pub serialize_to : (tx : Tx) (s : Sink) → (serialize_to tx s).0 ≡ true

  -- A call on the sink that ends well and has written these bytes.
  abbrev pub Writes : Sink → Bytes → Result (Unit {0}) × Sink → Type 0
  Writes sink b out = (out.0 ≡ ok tt) × (written out.1 ≡ written sink ++ b)

  write_range_complete :
      (ts : List Tx) (done more : List (Option Tx)) (nodes : List Node) (sink : Sink)
      → NeverFails
      → (length done ≡ 0 → first_is_placeholder platform bt nodes ≡ ok false)
      → Writes sink (all_bytes platform bt ts) (
          write_range platform bt writer
            (length ts)
            (length done)
            nodes
            (done ++ (map some ts ++ more))
            sink)
  unfolding write_range
  write_range_complete [] done more nodes sink fine h = (refl, sym (append-nil (written sink)))
  write_range_complete (t ∷ ts) done more nodes sink fine h =
      let tail : List (Option Tx) = map some ts ++ more in
      let sink' : Sink = (serialize_to t sink).1 in
      let (r, w) =
        write_range_complete ts (done ++ some t ∷ []) more nodes sink' fine
          (λ e. absurd (omega (arith, length-append done (some t ∷ [])))) in
      let wrote = serialize_to_lem t sink (fine.serialize_to t sink) in
      rw
        (
          skips_not platform bt (length done) nodes h,
          write_range,
          get_elem?-middle done tail (some t),
          write_range,
          fine.serialize_to t sink,
          next_index done (some t),
          next_done done tail (some t),
        )
        (
          r,
          w
              ∙ ap (λ (b : Bytes). b ++ all_bytes platform bt ts) wrote
              ∙ append_assoc (written sink) (serialize_bytes t) (all_bytes platform bt ts),
        )

  write_transaction_chunk_complete :
      (ts : List Tx) (sink : Sink)
      → NeverFails
      → Writes sink
          (all_bytes platform bt ts)
          (write_transaction_chunk platform bt writer sink (map some ts))
  unfolding write_transaction_chunk
  write_transaction_chunk_complete [] sink fine = (refl, sym (append-nil (written sink)))
  write_transaction_chunk_complete (t ∷ ts) sink fine =
      let sink' : Sink = (write sink (serialize_bytes t)).1 in
      let (r, w) = write_transaction_chunk_complete ts sink' fine in
      let wrote = write_lem sink (serialize_bytes t) (fine.write sink (serialize_bytes t)) in
      rw (fine.write sink (serialize_bytes t)) (
        r,
        w
            ∙ ap (λ (b : Bytes). b ++ all_bytes platform bt ts) wrote
            ∙ append_assoc (written sink) (serialize_bytes t) (all_bytes platform bt ts),
      )

  write_range-nodes :
      (nodes : List Node) (skip : Bool) (ts : List Tx) (first more : List (Option Tx)) (sink : Sink)
      → NeverFails
      → first_is_placeholder platform bt nodes ≡ ok skip
      → length first ≡ start_index skip
      → Writes sink (all_bytes platform bt ts) (
          write_range platform bt writer
            (start_index skip + length ts)
            0
            nodes
            (first ++ (map some ts ++ more))
            sink)
  unfolding write_range skips
  write_range-nodes nodes true ts first more sink fine e one =
      let count : 1 + length ts ≡ suc (length ts) = omega arith in
      rw (count, e, write_range, ← one)
        (write_range_complete ts first more nodes sink fine (λ z. absurd (omega arith)))
  write_range-nodes nodes false ts [] more sink fine e one =
      let count : 0 + length ts ≡ length ts = omega arith in
      rw count (write_range_complete ts [] more nodes sink fine (λ z. e))
  write_range-nodes nodes false ts (t ∷ first) more sink fine e one = absurd (omega arith)

  -- For data that have every transaction but the coinbase that a placeholder stands for, and a writer
  -- that never fails: `Serialize` gives bytes, `WriteTransactionsToWriter` over all nodes writes these
  -- bytes, and so does `WriteTransactionChunk` of the transactions.
  pub write_transactions_to_writer-serialize_data :
      (s : Subtree) (skip : Bool) (ts : List Tx) (d : Data bt) (sink : Sink)
      → IsComplete platform bt s skip ts d
      → NeverFails
      → (b : Bytes) × (serialize_data platform bt d ≡ ok b)
        × Writes sink b
            (write_transactions_to_writer platform bt writer d sink (pos 0) (pos (length s.nodes)))
        × Writes sink b (write_transaction_chunk platform bt writer sink (map some ts))
  unfolding write_transactions_to_writer write_between
  write_transactions_to_writer-serialize_data s skip ts d sink x fine =
      let rounds : length s.nodes - 0 ≡ start_index skip + length ts = omega (arith, x.as_many) in
      (
        all_bytes platform bt ts,
        serialize_data-IsComplete platform bt s skip ts d x,
        rw (x.has_subtree, write_transactions_to_writer, rounds, x.split)
            (write_range-nodes s.nodes skip ts x.first x.more sink fine x.has_placeholder x.one),
        write_transaction_chunk_complete ts sink fine,
      )
