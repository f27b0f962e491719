-- ===== src/Dns/Server/Local.antt =====
-- Which queries leave the node through a name server of plugin/pkg/dns/server.go.
use flannel_network_plugin.Prelude.{
  ◌≡◌, refl, Bool, true, false, Option, List, [], ◌∷◌, ◌++◌, String, All, ℕ, ltb, length, arith,
}
use flannel_network_plugin.Prelude.Dict.{is_some}
use flannel_network_plugin.Dns.Server.{
  Question, Msg, Wire, answers, answer_or_forward, serve_questions, serve_dns, max_size,
}

module _ (wire : Wire) (resolve_name resolve_ip : String → List wire.Rr) where
  open wire use {Rr, Outside}

  -- A question that the resolver has an answer to.
  abbrev pub IsLocal : Question → Type 0
  IsLocal q = ltb 0 (length (answers wire resolve_name resolve_ip q)) ≡ true

  -- No message is sent, and there is one to write.
  abbrev IsSettled : Outside → Option (Msg Rr) × Outside → Type 0
  IsSettled o (reply, o1) = (is_some reply ≡ true) × (o1 ≡ o)

  serve_questions_lem :
      (size : ℕ) (questions : List Question) (msg : Msg Rr) (o : Outside)
      → All IsLocal questions
      → IsSettled o (serve_questions wire resolve_name resolve_ip size questions msg o)
  unfolding serve_questions answer_or_forward
  serve_questions_lem size [] msg o local = (refl, refl)
  serve_questions_lem size (q ∷ questions) msg o local =
      go (msg.answer ++ answers wire resolve_name resolve_ip q)
        (nonempty msg.answer (answers wire resolve_name resolve_ip q) local.0)
        (λ msg. serve_questions_lem size questions msg o local.1)
    where
      nonempty :
          (before now : List Rr) → ltb 0 (length now) ≡ true → ltb 0 (length (before ++ now)) ≡ true
      nonempty [] now h = h
      nonempty (a ∷ before) now h = ground arith

      answered : Msg Rr
      answered = record msg { answer = msg.answer ++ answers wire resolve_name resolve_ip q }

      go :
          (found : List Rr)
          → ltb 0 (length found) ≡ true
          → ((msg : Msg Rr)
              → IsSettled o (serve_questions wire resolve_name resolve_ip size questions msg o))
          → IsSettled o (
              answer_or_forward wire resolve_name resolve_ip
                (serve_questions wire resolve_name resolve_ip size questions)
                size
                answered
                found
                o)
      go [] never later = cc
      go (a ∷ found) some_answer later = later (wire.truncate size answered)

  -- If the resolver has an answer to each question of a query, no message is sent to the outside,
  -- and there is a message to write.
  pub serve_dns_lem :
      (is_tcp : Bool) (udp_size : Option ℕ) (questions : List Question) (o : Outside)
      → All IsLocal questions
      → (is_some (serve_dns wire resolve_name resolve_ip is_tcp udp_size questions o).0 ≡ true)
        × ((serve_dns wire resolve_name resolve_ip is_tcp udp_size questions o).1 ≡ o)
  unfolding serve_dns
  serve_dns_lem is_tcp udp_size questions o =
      serve_questions_lem (max_size is_tcp udp_size) questions
        (record { answer = []; ns = []; extra = []; failure = false }) o
