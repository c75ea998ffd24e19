-- ===== src/Server/Client.antt =====
-- DataServer.cpp: the protocol that a comment of `RequestProcess` describes for a client: it asks for a
-- number that no message has, gets the count, and then asks for each message up to it.
use simple_cgate.Base.{
  ℕ, zero, suc, ◌+◌, ◌/◌, ◌%◌, ◌<◌, ◌≡◌, refl, ap, ap, arith, Bool, false, Option, none, some, List,
  [], ◌∷◌, ◌++◌, map, length, length-append, get_elem?, nat_eq,
}
use mathlib.Core.List.{append_assoc}
use simple_cgate.Base.Words.{u32}
use simple_cgate.Events.{EventManager}
use simple_cgate.Entities.Platform.{Platform}
use simple_cgate.Server.{DataServer, new_data_server}
use simple_cgate.Server.Runs.{Step, is_unanswered, run, log_run, RefinesRun, run-refines}
use simple_cgate.Server.Messages.{
  DataType, data_type_code, RequestType, request_type_code, ClientRequest, Message, server_message,
  read_request, request_bytes, word_of,
}
use simple_cgate.Server.Requests.{Served, Reply, request_process_round}
use simple_cgate.Server.Log.{Represents, log_message}
use simple_cgate.Server.Refines.{request_process_round-log}

-- The four bytes of a 32-bit number make it up again.
word_of-word_bytes :
    (n : ℕ)
    → n < 4294967296
    → word_of (n % 256) (n / 256 % 256) (n / 65536 % 256) (n / 16777216 % 256) ≡ n
word_of-word_bytes n h = omega arith

pub record IsRequest (r : ClientRequest) : Type 0 where
  pub type_lt : r.type < 4294967296
  pub req_type_lt : r.req_type < 4294967296
  pub value_lt : r.value < 4294967296
  pub id_lt : r.id < 4294967296

-- What a client writes into the 16 bytes is what the server reads from them.
pub read_request-request_bytes :
    (r : ClientRequest) → IsRequest r → read_request (request_bytes r) ≡ some r
unfolding read_request request_bytes
read_request-request_bytes r h =
    rw
      (
        word_of-word_bytes r.type h.type_lt,
        word_of-word_bytes r.req_type h.req_type_lt,
        word_of-word_bytes r.value h.value_lt,
        word_of-word_bytes r.id h.id_lt,
      )
      refl

-- What a client sends to ask for the message with a number.
abbrev pub request_for : ℕ → ClientRequest
request_for n = record {
  type = data_type_code DataType.request;
  req_type = request_type_code RequestType.message;
  value = n;
  id = 0;
}

u32_lem : (n : ℕ) → n < 2147483648 → u32 n ≡ n
u32_lem n h = omega arith

module _ {D : Type 0} where
  abbrev pub ask : ℕ → DataServer D → EventManager → Served D
  ask n s manager = (request_process_round (request_bytes (request_for n)) s manager).0

  -- The answers to `n` questions, from a number on.
  unfoldable pub ask_from : ℕ → ℕ → DataServer D → EventManager → List (Served D)
  unfolding request_process_round request_bytes
  ask_from zero i s manager = []
  ask_from (suc n) i s manager = ask i s manager ∷ ask_from n (suc i) s manager

  -- The count in an answer.
  abbrev pub count_in : Served D → ℕ
  count_in (Served.answered (Reply.stored (server_message d))) = d.all_messages
  count_in _ = 0

  -- The whole exchange: the question for the count, and then that many.
  unfoldable pub fetch : DataServer D → EventManager → List (Served D)
  unfolding ask_from
  fetch s manager = ask_from (count_in (ask 0 s manager)) 1 s manager

  ask-log :
      (n : ℕ) (s : DataServer D) (manager : EventManager) (log : List (Message D))
      → n < 4294967296
      → Represents s log
      → ask n s manager ≡ Served.answered (Reply.stored (log_message n log))
  ask-log n s manager log lt r =
      rw
        (
          request_process_round-log (request_bytes (request_for n)) s manager log r,
          read_request-request_bytes (request_for n) (record {
            type_lt = omega arith;
            req_type_lt = omega arith;
            value_lt = lt;
            id_lt = omega arith;
          }),
        )
        refl

  get_elem?-append :
      (before after : List (Message D)) (m : Message D)
      → get_elem? (before ++ m ∷ after) (length before) ≡ some m
  get_elem?-append [] after m = refl
  get_elem?-append (x ∷ before) after m = get_elem?-append before after m

  log_message-append :
      (before after : List (Message D)) (m : Message D) (i : ℕ)
      → i ≡ suc (length before)
      → i < 2147483648
      → log_message i (before ++ m ∷ after) ≡ m
  log_message-append before after m zero e h = absurd (omega arith)
  log_message-append before after m (suc i) e h = ground (arith, get_elem?-append before after m)

  ask_from-append :
      (after before : List (Message D)) (i : ℕ) (s : DataServer D) (manager : EventManager)
      → i ≡ suc (length before)
      → length before + length after < 2147483648
      → Represents s (before ++ after)
      → ask_from (length after) i s manager ≡ map (λ m. Served.answered (Reply.stored m)) after
  unfolding ask_from
  ask_from-append [] before i s manager e h r = refl
  ask_from-append (m ∷ after) before i s manager e h r =
      rw
        (
          ask-log i s manager (before ++ m ∷ after) (omega arith) r,
          log_message-append before after m i e (omega arith),
        )
        (ap (λ l. Served.answered (Reply.stored m) ∷ l)
          (ask_from-append after (before ++ m ∷ []) (suc i) s manager
            (omega (arith, length-append before (m ∷ [])))
            (omega (arith, length-append before (m ∷ [])))
            (rw (append_assoc before (m ∷ []) after) r)))

  -- A client that asks for the count and then for each number up to it receives every stored message,
  -- in the order in which they were stored.
  pub fetch-stored :
      (s : DataServer D) (manager : EventManager) (log : List (Message D))
      → Represents s log
      → length log < 2147483648
      → fetch s manager ≡ map (λ m. Served.answered (Reply.stored m)) log
  unfolding fetch
  fetch-stored s manager log r h =
      rw (ask-log 0 s manager log (omega arith) r, u32_lem (length log) h)
        (ask_from-append log [] 1 s manager refl (omega arith) r)

-- Whether the last request was left without an answer.
abbrev pub owes_answer : {D : Type 0} → List (Served D) → Bool
owes_answer [] = false
owes_answer (r ∷ []) = is_unanswered r
owes_answer (r ∷ r' ∷ rs) = owes_answer (r' ∷ rs)

module _ {D : Type 0} ⦃num : Platform D⦄ where
  abbrev pub Fetched :
      EventManager
      → List (Served D)
      → List (Message D)
      → Option (List (Served D) × DataServer D)
      → Type 0
  Fetched manager rs log o =
      (s : DataServer D) × (o ≡ some (rs, s))
      × (fetch s manager ≡ map (λ m. Served.answered (Reply.stored m)) log)

  fetched :
      (manager : EventManager) (rs : List (Served D)) (log : List (Message D))
      (o : Option (List (Served D) × DataServer D))
      → RefinesRun o (some (rs, log))
      → length log < 2147483648
      → Fetched manager rs log o
  fetched manager rs log none h lt = absurd h
  fetched manager rs log (some (rs', s)) (same, r) lt = (s, cc, fetch-stored s manager log r lt)

  -- After any steps over which the program does not end, in which each event's message can be filled and
  -- each request is well-formed, with the last request answered and while fewer than 2^31 messages are
  -- logged: a client that asks for message 0, which gives it the count, and then for each number from 1
  -- to the count, in requests of 16 bytes, is answered with the messages of the log, in their order.
  pub fetch-run :
      (steps : List (Step D)) (m manager : EventManager) (rs : List (Served D))
      (log : List (Message D))
      → log_run false steps [] ≡ some (rs, log)
      → owes_answer rs ≡ false
      → length log < 2147483648
      → Fetched manager rs log
          (run false steps (new_data_server {D = D} m).0 (new_data_server {D = D} m).1)
  fetch-run steps m manager rs log e answered lt =
      fetched manager rs log _ (rw⁻¹ e (run-refines steps m)) lt
