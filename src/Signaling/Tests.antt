-- ===== src/Signaling/Tests.antt =====
-- A connection that is closed twice, and the theorems of `Signaling` at it.
use simple_screen_share.Messages.{C2SRequest, broadcast_stop, request, S2CResponse}
use simple_screen_share.Signaling.Loops.{
  Received, got, failed, ended, Reading, recv_failed, read_loop, read_loop-answers,
}
use simple_screen_share.Base.{ℕ, suc, List, ◌≡◌, refl, String, Option, none, some, [], ◌∷◌}
use simple_screen_share.Messages.{S2CMessage, notify, response, success}
use simple_screen_share.Signaling.{
  Message, ping, pong, text, stop_reading, spawn_close, connection_closing, all_closing,
  disconnecting, connected, SignalingClient, disconnect, flush_close,
}

abbrev fresh_client : SignalingClient
fresh_client = record { client_id = 1; subscriber = 4 ∷ 5 ∷ []; connection = connected [] }

abbrev after_disconnect : SignalingClient
after_disconnect = (disconnect fresh_client none).0

abbrev after_flush : SignalingClient
after_flush = (flush_close after_disconnect none).0

-- A serialiser that fails on responses.
abbrev serialize : S2CMessage → Option String
serialize (notify n) = some "notify"
serialize (response id answer) = none

-- A handler that counts its requests, a parser that finds the same request in each text, and a
-- serializer that writes the same text for each message.
abbrev one_more : ℕ → C2SRequest → ℕ × List S2CMessage × S2CResponse
one_more n r = (suc n, [], success)

abbrev asks : List Message
asks = ping (1 ∷ []) ∷ text "{}" ∷ []

abbrev listened : SignalingClient
listened = record { client_id = 1; subscriber = 4 ∷ []; connection = connected [] }

abbrev reads : List Received → Reading ℕ
reads =
    read_loop (λ m. some "response") (λ t. some (request 7 (broadcast_stop 3))) one_more 1011 0
      listened

read_loop-answers_example :
    (reads (got (ping (1 ∷ [])) ∷ got (text "{}") ∷ []) ≡ record {
      handler = 1;
      client = record listened { connection = connected (pong (1 ∷ []) ∷ text "response" ∷ []) };
      events = [];
    })
    × (reads (got (ping (1 ∷ [])) ∷ got (text "{}") ∷ failed ∷ []) ≡ record {
      handler = 1;
      client = record listened {
        connection = disconnecting (pong (1 ∷ []) ∷ text "response" ∷ []);
      };
      events = stop_reading ∷ spawn_close (some (recv_failed 1011)) ∷ connection_closing 4 ∷ [];
    })
    × (reads (got (ping (1 ∷ [])) ∷ got (text "{}") ∷ ended ∷ []) ≡ record {
      handler = 1;
      client = record listened {
        connection = disconnecting (pong (1 ∷ []) ∷ text "response" ∷ []);
      };
      events = stop_reading ∷ spawn_close none ∷ connection_closing 4 ∷ [];
    })
unfolding all_closing
read_loop-answers_example =
    read_loop-answers (λ m. some "response") (λ t. some (request 7 (broadcast_stop 3))) one_more
      1011 0 listened [] asks refl
