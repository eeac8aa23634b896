-- ===== src/Edge/Counted.antt =====
-- Every request for a local command is counted once, as what became of it.
use vpp_lab.Prelude.{
  ℕ, String, true, none, some, ◌≡◌, ◌≢◌, inr, ◌∷◌, ◌==◌, ◌+◌, ◌%◌, ◌^◌, if◌then◌else◌, trim_space,
}
use vpp_lab.Prelude.Clock.{Time}
use vpp_lab.Prelude.Dict.{lookup}
use vpp_lab.Edge.Local.{
  edge_token, EdgeCounter, count_or, error, sent_command, LocalCommandRequest, Interface, Io,
  Result,
}
use vpp_lab.Edge.Commands.{local_message, target_topic}

-- One more of a label, as a uint64 counts, and as many as before of every other.
abbrev pub OneMore : String → EdgeCounter → EdgeCounter → Type 0
unfolding count_or
OneMore label c c' =
    (l : String)
    → count_or (lookup l c'.counts) ≡ (
        if label == l
        then (count_or (lookup l c.counts) + 1) % 2 ^ 64
        else count_or (lookup l c.counts))

-- A gateway's token and a request that has it.
abbrev pub HasToken : (String → String) → String → Type 0
HasToken header token = (trim_space token ≢ "") × (edge_token header ≡ trim_space token)

module _ {R Bytes : Type 0} (io : Io R Bytes) (clock : ℕ → Time) (header : String → String) where
  -- What a request does: one that fails is counted as failed, sends nothing and is not answered with 202;
  -- one that is accepted has the token, finds the local broker connected, is counted as accepted, and has
  -- its command, on its topic, taken by that broker.
  pub data Counted (g : Interface Bytes) : Result R Bytes → Type 0 where
    failed :
        (status : ℕ) (message : String) (g' : Interface Bytes)
        → status ≢ 202
        → OneMore "failed" g.local_commands g'.local_commands
        → g'.sent ≡ g.sent
        → Counted g ((status, error message), g')
    accepted :
        (req : LocalCommandRequest R) (payload : Bytes) (g' : Interface Bytes)
        → HasToken header g.control_token
        → g.local ≡ some true
        → io.write_command (local_message io clock req) ≡ inr payload
        → io.publish (target_topic io req g) payload ≡ none
        → OneMore "accepted" g.local_commands g'.local_commands
        → g'.sent ≡ (target_topic io req g, payload) ∷ g.sent
        → Counted g ((202, sent_command (target_topic io req g) (local_message io clock req)), g')
