-- ===== src/Edge.antt =====
-- The edge gateway: internal/edge/cache.go, and the parts of cmd/edge-gateway/main.go that fill, forward
-- and clean the cache. The cache is the table `mqtt_messages`, as a list of its rows in the order of
-- their ids; each statement is what SQL says it does, on a database that executes it.

pub mod Rows
pub mod Forwarding
pub mod Delivery
pub mod Local
pub mod Commands
pub mod Counted
use Prim.Native.String.{◌++◌ as append}
use vpp_lab.Prelude.{
  ℕ, suc, String, Bool, true, false, Option, none, some, List, [], ◌∷◌, ◌++◌, ◌==◌, if◌then◌else◌,
  ◌||◌, not, keep, ◌&&◌, take, length, beq,
}
use vpp_lab.Prelude.Int.{ℤ, pos, ltb_ℤ, leb_ℤ, pos_part, ◌-ℤ◌}
use vpp_lab.Prelude.Clock.{Time, Duration, before}
use Prim.Native.Char.{code}
use vpp_lab.Topic.{Parsed, parse}

-- A row: `sent_at` is `none` where the column is NULL.
pub record Row : Type 0 where
  pub id : ℕ
  pub topic : String
  pub payload : String
  pub created_at : Time
  pub sent_at : Option Time

-- The table, and the id that AUTOINCREMENT gives next.
pub record Cache : Type 0 where
  pub rows : List Row
  pub next_id : ℕ

pub record CacheStats : Type 0 where
  pub pending : ℕ
  pub total : ℕ
  pub oldest_pending_at : Option Time

unfoldable pub open_empty : Cache
open_empty = record { rows = []; next_id = 1 }

unfoldable pub put : Time → String → String → Cache → Cache
put now topic payload c = record {
  rows =
      c.rows
      ++ (record {
        id = c.next_id;
        topic = topic;
        payload = payload;
        created_at = now;
        sent_at = none;
      }
          ∷ []);
  next_id = suc c.next_id;
}

-- sent_at IS NULL
unfoldable pub unsent : Row → Bool
unsent r = elim r.sent_at [ none ↦ true | some t ↦ false ]

unfoldable pub limit_of : ℤ → ℕ
limit_of limit = if leb_ℤ limit (pos 0) || ltb_ℤ (pos 1000) limit then 100 else pos_part limit

unfoldable pub pending : ℤ → Cache → List Row
unfolding unsent limit_of
pending limit c = take (limit_of limit) (keep unsent c.rows)

-- UPDATE ... WHERE id = ?
unfoldable pub mark : Time → ℕ → List Row → List Row
mark now id [] = []
mark now id (r ∷ rs) = (if beq r.id id then record r { sent_at = some now } else r) ∷ mark now id rs

unfoldable pub mark_sent : Time → ℕ → Cache → Cache
unfolding mark
mark_sent now id c = record c { rows = mark now id c.rows }

-- sent_at IS NOT NULL AND sent_at < ?
unfoldable pub sent_before : Time → Row → Bool
sent_before cutoff r = elim r.sent_at [ none ↦ false | some t ↦ before t cutoff ]

-- The number of rows that are deleted, and the cache afterwards.
unfoldable pub delete_sent_before : Time → Cache → ℕ × Cache
unfolding sent_before
delete_sent_before cutoff c = (
  length (keep (sent_before cutoff) c.rows),
  record c { rows = keep (λ r. not (sent_before cutoff r)) c.rows },
)

first_created : List Row → Option Time
first_created [] = none
first_created (r ∷ rs) = some r.created_at

unfoldable pub stats : Cache → CacheStats
unfolding unsent first_created
stats c = record {
  pending = length (keep unsent c.rows);
  total = length c.rows;
  oldest_pending_at = first_created (keep unsent c.rows);
}

-- strings.TrimLeft(s, "/")
unfoldable pub trim_left : String → String
trim_left String.[] = ""
trim_left (String.◌∷◌ c s) =
    let rest = trim_left s in if beq (code c) b'/' then rest else String.◌∷◌ c s

-- strings.TrimRight(s, "/")
unfoldable pub trim_right : String → String
trim_right String.[] = ""
trim_right (String.◌∷◌ c s) =
    let rest = trim_right s in if rest == "" && beq (code c) b'/' then "" else String.◌∷◌ c rest

unfoldable pub upstream_topic : String → String → String
unfolding trim_left trim_right
upstream_topic original prefix =
    let p = trim_right (trim_left prefix) in
    if p == "" then original else append p (append "/" (trim_left original))

-- A message that the upstream broker has accepted, with the id of its row.
pub record Forwarded : Type 0 where
  pub id : ℕ
  pub topic : String
  pub payload : String

-- The cache, and what has been forwarded so far, the last first.
pub record Gateway : Type 0 where
  pub cache : Cache
  pub forwarded : List Forwarded

-- What the gateway does not implement. `publish` says whether the broker accepts a message, and `marked`
-- at what time the database marks a row as sent, or `none` where it fails; both given what was forwarded
-- before.
pub record Env : Type 0 where
  pub publish : List Forwarded → String → String → Bool
  pub marked : List Forwarded → ℕ → Option Time

unfoldable pub message : String → Row → Forwarded
unfolding upstream_topic
message prefix r = record { id = r.id; topic = upstream_topic r.topic prefix; payload = r.payload }

module _ (env : Env) where
  -- MarkSent, and whether the loop goes on.
  unfoldable pub mark_forwarded : ℕ → Gateway → Bool × Gateway
  unfolding mark_sent
  mark_forwarded id g = elim (env.marked g.forwarded id) [
    | none ↦ (false, g)
    | some now ↦ (true, record g { cache = mark_sent now id g.cache })
  ]

  -- One turn of the loop, and whether it goes on.
  unfoldable pub forward : String → Row → Gateway → Bool × Gateway
  unfolding message mark_forwarded
  forward prefix r g =
      let m = message prefix r in
      if env.publish g.forwarded m.topic m.payload
      then mark_forwarded r.id (record g { forwarded = m ∷ g.forwarded })
      else (false, g)

  -- The loop over the pending messages, which returns at the first failure.
  unfoldable pub forward_all : String → List Row → Gateway → Gateway
  unfolding forward
  forward_all prefix [] g = g
  forward_all prefix (r ∷ rs) g =
      let rest = forward_all prefix rs (forward prefix r g).1 in
      if (forward prefix r g).0 then rest else (forward prefix r g).1

  -- flushPending: `connected` is false where the client is not connected or the rows do not load.
  unfoldable pub flush_pending : Bool → String → Gateway → Gateway
  unfolding forward_all pending
  flush_pending connected prefix g =
      if connected then forward_all prefix (pending (pos 100) g.cache) g else g

-- The handler of local messages: `captures` is the set of kinds.
unfoldable pub capture : (String → Bool) → Time → String → String → Cache → Cache
unfolding put parse
capture captures now topic payload c = elim (parse topic) [
  | none ↦ c
  | some parsed ↦ if captures parsed.kind then put now topic payload c else c
]

unfoldable pub clean_sent : Time → Duration → Cache → Cache
unfolding delete_sent_before
clean_sent now retention c = (delete_sent_before (now -ℤ retention) c).1

-- What happens to a running gateway: a message arrives and is captured, a flush, a cleaning. A message
-- that the database does not store is no event, nor is a cleaning that fails.
pub data Event : Type 0 where
  arrived : Time → String → String → Event
  flushed : Bool → Event
  cleaned : Time → Event

unfoldable pub run : Env → (String → Bool) → String → Duration → List Event → Gateway → Gateway
unfolding capture flush_pending clean_sent
run env captures prefix retention [] g = g
run env captures prefix retention (arrived now topic payload ∷ es) g =
    run env captures prefix retention es
      (record g { cache = capture captures now topic payload g.cache })
run env captures prefix retention (flushed connected ∷ es) g =
    run env captures prefix retention es (flush_pending env connected prefix g)
run env captures prefix retention (cleaned now ∷ es) g =
    run env captures prefix retention es (record g { cache = clean_sent now retention g.cache })
