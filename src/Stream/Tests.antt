-- ===== src/Stream/Tests.antt =====
-- A service whose first address fails, and whose fallback answers.
use aptos_etl.Prelude.{◌≡◌, ◌↔◌, refl, none, some, List, ok, err, if◌then◌else◌}
use aptos_etl.Prelude.Text.{codes, text_eq}
use aptos_etl.Extract.Interface.{StreamCreationError, bad_response}
use aptos_etl.Extract.Loop.{Pull}
use aptos_etl.Extract.Toy.{toy, two_responses}
use aptos_etl.Stream.{
  Environment, StreamConfig, Joined, answered, refused, died, get_stream_response, get_stream,
}
use aptos_etl.Stream.Fallback.{Reached, get_stream-Reached}

abbrev environment : Environment
environment = record {
  service_address = codes "http://a";
  auth_token = codes "secret";
  ping_interval = 60;
  ping_timeout = 10;
  project_name = codes "etl";
  service_address_fallback = some (codes "http://b");
  auth_token_fallback = none;
}

abbrev ask : StreamConfig → Joined toy
ask c = if text_eq c.service_address (codes "http://b") then answered two_responses else died

falls_back : get_stream toy environment ask 5 8 ≡ ok two_responses
unfolding get_stream get_stream_response
falls_back = refl

no_fallback :
    get_stream toy (record environment { service_address_fallback = none }) ask 5 8
    ≡ err bad_response
unfolding get_stream get_stream_response
no_fallback = refl

not_asked : get_stream toy environment (λ c. refused) 5 8 ≡ err bad_response
unfolding get_stream get_stream_response
not_asked = refl

get_stream-Reached_example :
    ((pulls : List (Pull toy))
      → (get_stream toy environment ask 5 8 ≡ ok pulls) ↔ Reached toy environment ask 5 8 pulls)
    × ((x : StreamCreationError) → get_stream toy environment ask 5 8 ≡ err x → x ≡ bad_response)
get_stream-Reached_example = get_stream-Reached toy environment ask 5 8
