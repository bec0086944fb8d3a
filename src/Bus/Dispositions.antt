-- ===== src/Bus/Dispositions.antt =====
-- libs/bus/client.py, consume_validated: what becomes of the messages of a fetched batch.
use pi_news_aggregator.Prelude.{
  ℕ, true, false, ltb, ◌≡◌, inl, inr, Option, none, some, List, [], ◌∷◌, length, Bool-cases,
  Option-cases,
}
use package.pi_news_aggregator.Bus.{
  Bytes, Disposition, ack, nak, term, Handler, consume_valid, consume_one, consume_batch,
}

module _ {M S : Type 0} (max_msg_bytes : ℕ) (validate : Bytes → Option M)
    (handler : Handler M S) where
  -- The answer to one message, with the state before and after.
  pub data Consumed (s : S) (payload : Bytes) : Disposition → S → Type 0 where
    too_large : ltb max_msg_bytes (length payload) ≡ true → Consumed s payload term s
    malformed :
        ltb max_msg_bytes (length payload) ≡ false
        → validate payload ≡ none
        → Consumed s payload term s
    handled :
        (m : M)
        → ltb max_msg_bytes (length payload) ≡ false
        → validate payload ≡ some m
        → (handler m s).0 ≡ true
        → Consumed s payload ack (handler m s).1
    raised :
        (m : M)
        → ltb max_msg_bytes (length payload) ≡ false
        → validate payload ≡ some m
        → (handler m s).0 ≡ false
        → Consumed s payload nak (handler m s).1

  -- The messages of a batch are answered in order, each once, the state passed on.
  pub data Batch : S → List Bytes → List Disposition → S → Type 0 where
    done : {s : S} → Batch s [] [] s
    more :
        {s s' s'' : S} {payload : Bytes} {msgs : List Bytes} {d : Disposition}
        {ds : List Disposition}
        → Consumed s payload d s'
        → Batch s' msgs ds s''
        → Batch s (payload ∷ msgs) (d ∷ ds) s''

  consume_one-Consumed :
      (payload : Bytes) (s : S)
      → Consumed s payload
          (consume_one max_msg_bytes validate handler payload s).0
          (consume_one max_msg_bytes validate handler payload s).1
  unfolding consume_one consume_valid
  consume_one-Consumed payload s = elim (Bool-cases (ltb max_msg_bytes (length payload))) [
    | inl big ↦ rw big (too_large big)
    | inr small ↦ rw small (elim (Option-cases (validate payload)) [
      | inl q ↦ rw q (malformed small q)
      | inr (m, q) ↦ rw q (elim (Bool-cases (handler m s).0) [
        | inl t ↦ rw t (handled m small q t)
        | inr f ↦ rw f (raised m small q f)
      ])
    ])
  ]

  -- Each message of a batch gets one answer, in order: `term` without the handler being called if
  -- it is larger than the cap or does not validate, else `ack` if the handler returns and `nak` if
  -- it raises. The state goes through the handler's calls in order.
  pub consume_batch-Batch :
      (msgs : List Bytes) (s : S)
      → Batch s msgs
          (consume_batch max_msg_bytes validate handler msgs s).0
          (consume_batch max_msg_bytes validate handler msgs s).1
  unfolding consume_batch
  consume_batch-Batch [] s = done
  consume_batch-Batch (payload ∷ msgs) s =
      more (consume_one-Consumed payload s)
        (consume_batch-Batch msgs (consume_one max_msg_bytes validate handler payload s).1)
