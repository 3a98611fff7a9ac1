-- ===== src/H2/Posts/Runs.antt =====
-- Responses with and without a declared length, and what the theorems say of them.
use tg_ws_keenetic.Base.{ℕ, ◌*◌, ◌≡◌, refl, true, none, some, [], ◌∷◌, ErrorKind}
use tg_ws_keenetic.Base.Int.{negsuc}
use tg_ws_keenetic.H2.Budget.{BudgetState, Budget, try_acquire, try_extend}
use tg_ws_keenetic.H2.Packets.{max_packet}
use tg_ws_keenetic.H2.Posts.{Response, data_chunk, route, transport}
use tg_ws_keenetic.H2.Posts.Replies.{Posted, failed, read_response, replay_id, reply}
use tg_ws_keenetic.H2.Posts.ReplyIds.{identity, replay_id-joined}
use tg_ws_keenetic.H2.Posts.Answers.{Answers, read_response-Answers}

abbrev usize : ℕ
usize = 4294967295

abbrev process_replies : Budget
process_replies = record { max_requests = 64; max_bytes = max_packet * 2 }

abbrev others : BudgetState
others = record { requests = 1; bytes = 100 }

-- Eight bytes in two chunks, with an empty one between them.
abbrev split_response : Response
split_response = record {
  status = 200;
  content_type = none;
  content_length = none;
  content_encoding = none;
  body =
      data_chunk (1 ∷ 2 ∷ 3 ∷ []) true
      ∷ data_chunk [] true
      ∷ data_chunk (4 ∷ 5 ∷ 6 ∷ 7 ∷ 8 ∷ []) true
      ∷ [];
}

-- The same with its length declared as `8`, and one that is too short for it.
abbrev declared_response : Response
declared_response = record split_response { content_length = some (some (b'8' ∷ [])) }

abbrev short_response : Response
short_response = record split_response { content_length = some (some (b'1' ∷ b'2' ∷ [])) }

-- A body of four bytes, the code -404.
abbrev coded_response : Response
coded_response = record split_response { body = data_chunk (108 ∷ 254 ∷ 255 ∷ 255 ∷ []) true ∷ [] }

abbrev answer : Response → Posted
answer r = (read_response usize process_replies true r others 40).0

split_runs : answer split_response ≡ reply ((1 ∷ 2 ∷ 3 ∷ []) ∷ (4 ∷ 5 ∷ 6 ∷ 7 ∷ 8 ∷ []) ∷ []) 8
unfolding read_response try_acquire try_extend
split_runs = refl

declared_runs : answer declared_response ≡ reply ((1 ∷ 2 ∷ 3 ∷ 4 ∷ 5 ∷ 6 ∷ 7 ∷ 8 ∷ []) ∷ []) 8
unfolding read_response try_acquire
declared_runs = refl

short_runs : answer short_response ≡ failed (route ErrorKind.unexpected_eof)
unfolding read_response try_acquire
short_runs = refl

coded_runs : answer coded_response ≡ failed (transport (negsuc 403))
unfolding read_response try_acquire
coded_runs = refl

refused_runs : answer (record split_response { status = 429 }) ≡ failed (transport (negsuc 428))
unfolding read_response
refused_runs = refl

read_response-Answers_example :
    Answers usize process_replies others 40 split_response
      (read_response usize process_replies true split_response others 40)
read_response-Answers_example =
    read_response-Answers usize process_replies others 40 true split_response

replay_id-joined_example :
    replay_id ((1 ∷ 2 ∷ 3 ∷ []) ∷ (4 ∷ []) ∷ []) ≡ identity 24 (1 ∷ 2 ∷ 3 ∷ 4 ∷ [])
replay_id-joined_example = replay_id-joined ((1 ∷ 2 ∷ 3 ∷ []) ∷ (4 ∷ []) ∷ [])
