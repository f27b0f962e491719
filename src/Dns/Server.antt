-- ===== src/Dns/Server.antt =====
-- plugin/pkg/dns/server.go: what a name server answers, the path of its namespace, and how it enters
-- the namespace. `resolve` is the resolver with the networks that the name server answers for.
pub mod Local
use text.Mathlib.Text.{starts_with}
use flannel_network_plugin.Prelude.{
  ℕ, Bool, true, false, Option, none, some, List, [], ◌∷◌, ◌++◌, String, if◌then◌else◌, ltb, length,
}
use flannel_network_plugin.Common.Act.{Act, pure, fail}
use flannel_network_plugin.External.Texts.{◌+++◌}

-- `adjustNamespacePath`
unfoldable pub adjust_namespace_path : String → String
adjust_namespace_path path = if starts_with path "/hostfs" then path else "/hostfs" +++ path

-- `dns.TypeA`, `dns.TypePTR`, and the types that the name server does not look up.
pub data QuestionType : Type 0 where
  type_a : QuestionType
  type_ptr : QuestionType
  other_type : QuestionType

pub record Question : Type 0 where
  pub name : String
  pub question_type : QuestionType

-- The parts of a message that the name server sets; `failure` is `RcodeServerFailure`.
pub record Msg (Rr : Type 0) : Type 0 where
  pub answer : List Rr
  pub ns : List Rr
  pub extra : List Rr
  pub failure : Bool

-- github.com/miekg/dns: `Exchange` with 8.8.4.4:53 over a protocol, for the whole request, which acts
-- on the world outside, and `Truncate` to a size.
pub record Wire : Type 1 where
  pub Rr : Type 0
  pub Outside : Type 0
  pub exchange : String → Act Outside (Msg Rr)
  pub truncate : ℕ → Msg Rr → Msg Rr

-- `dns.MinMsgSize` and `dns.MaxMsgSize`
abbrev min_msg_size : ℕ
min_msg_size = 512

abbrev max_msg_size : ℕ
max_msg_size = 65535

-- The size for a query over TCP or UDP; the option of a query over UDP may raise it.
unfoldable pub max_size : Bool → Option ℕ → ℕ
max_size true udp_size = max_msg_size
max_size false none = min_msg_size
max_size false (some udp_size) = if ltb min_msg_size udp_size then udp_size else min_msg_size

module _ (wire : Wire) (resolve_name resolve_ip : String → List wire.Rr) where
  open wire use {Rr, Outside}

  unfoldable pub answers : Question → List Rr
  answers q = elim q.question_type [
    | type_a ↦ resolve_name q.name
    | type_ptr ↦ resolve_ip q.name
    | other_type ↦ []
  ]

  merge : Msg Rr → Msg Rr → Msg Rr
  merge msg reply = record msg {
    answer = msg.answer ++ reply.answer;
    ns = msg.ns ++ reply.ns;
    extra = msg.extra ++ reply.extra;
  }

  -- The reply of the second attempt, over TCP: an error ends the loop.
  on_tcp :
      (Msg Rr → Act Outside (Msg Rr))
      → Msg Rr
      → Option (Msg Rr) × Outside
      → Option (Msg Rr) × Outside
  unfolding merge
  on_tcp more msg (none, o) = (some (record msg { failure = true }), o)
  on_tcp more msg (some reply, o) = more (merge msg reply) o

  on_udp :
      (Msg Rr → Act Outside (Msg Rr))
      → Msg Rr
      → Option (Msg Rr) × Outside
      → Option (Msg Rr) × Outside
  unfolding merge on_tcp
  on_udp more msg (none, o) = on_tcp more msg (wire.exchange "tcp" o)
  on_udp more msg (some reply, o) = more (merge msg reply) o

  -- One round: a message without an answer is forwarded, any other is truncated.
  answer_or_forward : (Msg Rr → Act Outside (Msg Rr)) → ℕ → Msg Rr → List Rr → Act Outside (Msg Rr)
  unfolding on_udp
  answer_or_forward more size msg [] o = on_udp more msg (wire.exchange "udp" o)
  answer_or_forward more size msg (a ∷ found) o = more (wire.truncate size msg) o

  unfoldable pub serve_questions : ℕ → List Question → Msg Rr → Act Outside (Msg Rr)
  unfolding answer_or_forward answers
  serve_questions size [] msg = pure msg
  serve_questions size (q ∷ questions) msg =
      let answered = record msg { answer = msg.answer ++ answers q } in
      answer_or_forward (serve_questions size questions) size answered answered.answer

  -- `ServeDNS`: the message that is written.
  unfoldable pub serve_dns : Bool → Option ℕ → List Question → Act Outside (Msg Rr)
  unfolding serve_questions max_size
  serve_dns is_tcp udp_size questions =
      serve_questions (max_size is_tcp udp_size) questions
        (record { answer = []; ns = []; extra = []; failure = false })

-- One attempt of `setNamespace`: whether the namespace was entered, whether the context has ended
-- after it, and whether the deadline has passed.
pub record Attempt : Type 0 where
  pub entered : Bool
  pub is_done : Bool
  pub is_late : Bool

-- `setNamespace`: whether it succeeds; no result if the attempts of the list do not reach the
-- deadline.
unfoldable pub set_namespace : List Attempt → Option Bool
set_namespace [] = none
set_namespace (a ∷ attempts) =
    let rest = set_namespace attempts in
    if a.entered
    then some true
    else if a.is_done
    then some false
    else if a.is_late
    then some false
    else rest
