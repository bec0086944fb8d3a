-- ===== src/Bus.antt =====
-- libs/bus/client.py: publishing under a prefix, and consuming validated messages. The broker, JSON
-- and pydantic are parameters.
pub mod Scope
pub mod Dispositions
use pi_news_aggregator.Prelude.{
  ℕ, Bool, true, false, ltb, Option, none, some, List, [], ◌∷◌, ◌++◌, Text, length, starts_with,
  nat_eq, if◌then◌else◌,
}

abbrev pub Bytes : Type 0
Bytes = List ℕ

pub record ScopedPublisher : Type 0 where
  pub prefix : Text
  pub max_bytes : ℕ

-- A return, or what was raised: PermissionError, ValueError, or an error of the broker.
pub data Published : Type 0 where
  sent permission_error value_error broker_error : Published

-- What the broker does with a message: it is stored and acknowledged, stored while the
-- acknowledgement is lost, or not stored.
pub data Reply : Type 0 where
  acked unacked unstored : Reply

-- The subjects and payloads that the broker has stored.
abbrev pub Log : Type 0
Log = List (Text × Bytes)

-- The await of js.publish
unfoldable pub deliver : Reply → Text × Bytes → Log → Published × Log
deliver acked entry log = (sent, log ++ entry ∷ [])
deliver unacked entry log = (broker_error, log ++ entry ∷ [])
deliver unstored entry log = (broker_error, log)

-- `data` is the encoded model.
unfoldable pub publish : ScopedPublisher → Reply → Text → Bytes → Log → Published × Log
unfolding deliver
publish pub' reply subject payload log =
    if starts_with subject pub'.prefix
    then if ltb pub'.max_bytes (length payload)
      then (value_error, log)
      else deliver reply (subject, payload) log
    else (permission_error, log)

pub data Disposition : Type 0 where
  ack nak term : Disposition

-- A handler returns, or raises: the state comes back beside either.
abbrev pub Handler : Type 0 → Type 0 → Type 0
Handler M S = M → S → Bool × S

module _ {M S : Type 0} (max_msg_bytes : ℕ) (validate : Bytes → Option M)
    (handler : Handler M S) where
  -- The body of the inner loop, for one message: `true` of the handler is a return.
  consume_valid : M → S → Disposition × S
  consume_valid m s = let (returned, s') = handler m s in (if returned then ack else nak, s')

  unfoldable pub consume_one : Bytes → S → Disposition × S
  unfolding consume_valid
  consume_one payload s =
      if ltb max_msg_bytes (length payload)
      then (term, s)
      else elim (validate payload) [ none ↦ (term, s) | some m ↦ consume_valid m s ]

  unfoldable pub consume_batch : List Bytes → S → List Disposition × S
  unfolding consume_one
  consume_batch [] s = ([], s)
  consume_batch (payload ∷ msgs) s =
      let (d, s') = consume_one payload s in let (ds, s'') = consume_batch msgs s' in (d ∷ ds, s'')
