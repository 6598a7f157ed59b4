-- ===== src/Stream/Fallback.antt =====
-- When the connection succeeds, and when the fallback is asked.
use aptos_etl.Prelude.{ℕ, ◌≡◌, refl, ◌↔◌, ◌⊎◌, inl, inr, Option, none, some, List, ok, err, arith}
use aptos_etl.Prelude.Text.{Text}
use aptos_etl.Extract.Interface.{Tables, StreamCreationError, bad_response}
use aptos_etl.Extract.Loop.{Pull}
use aptos_etl.Stream.{
  Environment, StreamConfig, Joined, answered, refused, died, stream_config, stream_config_fb,
  of_fallback, try_fallback, of_primary, get_stream_response, get_stream,
}

module _ (t : Tables) (env : Environment) (ask : StreamConfig → Joined t) (start end : ℕ) where
  -- The first request's answer, or, only if its task died, the fallback's.
  abbrev pub Reached : List (Pull t) → Type 0
  Reached pulls =
      (ask (stream_config env start end) ≡ answered pulls)
      ⊎ ((ask (stream_config env start end) ≡ died)
          × ((addr : Text) × (env.service_address_fallback ≡ some addr)
              × (ask (stream_config_fb env addr start end) ≡ answered pulls)))

  of_fallback-ok :
      (second : Joined t) (pulls : List (Pull t))
      → of_fallback t second ≡ ok pulls
      → second ≡ answered pulls
  of_fallback-ok (answered r) pulls h = ground arith
  of_fallback-ok refused pulls h = ground arith
  of_fallback-ok died pulls h = ground arith

  try_fallback-Reached :
      (fb : Option Text) (pulls : List (Pull t))
      → ask (stream_config env start end) ≡ died
      → env.service_address_fallback ≡ fb
      → try_fallback t env ask start end fb ≡ ok pulls
      → Reached pulls
  try_fallback-Reached none pulls e f h = ground arith
  try_fallback-Reached (some addr) pulls e f h = inr (e, (addr, f, of_fallback-ok _ pulls h))

  of_primary-Reached :
      (first : Joined t) (pulls : List (Pull t))
      → ask (stream_config env start end) ≡ first
      → of_primary t env ask start end first ≡ ok pulls
      → Reached pulls
  of_primary-Reached (answered r) pulls e h = inl (rw e (of_fallback-ok (answered r) pulls h))
  of_primary-Reached refused pulls e h = ground arith
  of_primary-Reached died pulls e h = try_fallback-Reached _ pulls e refl h

  Reached-get_stream :
      (pulls : List (Pull t)) → Reached pulls → get_stream t env ask start end ≡ ok pulls
  unfolding get_stream get_stream_response
  Reached-get_stream pulls (inl e) = rw e refl
  Reached-get_stream pulls (inr (e, (addr, f, g))) = rw (e, f, g) refl

  of_fallback-bad_response :
      (second : Joined t) (x : StreamCreationError)
      → of_fallback t second ≡ err x
      → x ≡ bad_response
  of_fallback-bad_response (answered r) x h = ground arith
  of_fallback-bad_response refused x h = ground arith
  of_fallback-bad_response died x h = ground arith

  try_fallback-bad_response :
      (fb : Option Text) (x : StreamCreationError)
      → try_fallback t env ask start end fb ≡ err x
      → x ≡ bad_response
  try_fallback-bad_response none x h = ground arith
  try_fallback-bad_response (some addr) x h = of_fallback-bad_response _ x h

  of_primary-bad_response :
      (first : Joined t) (x : StreamCreationError)
      → of_primary t env ask start end first ≡ err x
      → x ≡ bad_response
  of_primary-bad_response (answered r) x h = ground arith
  of_primary-bad_response refused x h = ground arith
  of_primary-bad_response died x h = try_fallback-bad_response _ x h

  -- A stream is returned exactly when the first request was answered, or, when the task of the
  -- first request has died, a fallback address is set and the request to it was answered; an
  -- error that is returned is `bad_response`.
  pub get_stream-Reached :
      ((pulls : List (Pull t)) → (get_stream t env ask start end ≡ ok pulls) ↔ Reached pulls)
      × ((x : StreamCreationError) → get_stream t env ask start end ≡ err x → x ≡ bad_response)
  unfolding get_stream get_stream_response
  get_stream-Reached = (
    λ pulls. (λ h. of_primary-Reached _ pulls refl h, Reached-get_stream pulls),
    λ x h. of_primary-bad_response _ x h,
  )
