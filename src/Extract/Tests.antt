-- ===== src/Extract/Tests.antt =====
-- The extraction of a range over toy tables, at concrete streams.
use aptos_etl.Prelude.{
  ℕ, ◌≡◌, ◌≢◌, ◌⊎◌, refl, none, List, [], ◌∷◌, map, Result, ok, err, panic, arith,
}
use aptos_etl.Options.{
  new_all, do_blocks, do_signatures, do_transactions, do_events, do_changes_or_subchanges,
  do_changes, do_modules, do_resources, do_table_items,
}
use aptos_etl.Extract.{count_request, finish, extract_range}
use aptos_etl.Extract.Interface.{ExtractionInteruptionError, tx_extraction}
use aptos_etl.Extract.Collect.{
  empty, add_tx, add_signatures, add_block, add_transaction, add_events, add_changes,
}
use aptos_etl.Extract.Publish.{publish_all, publish_if, publish_each}
use aptos_etl.Extract.Sent.{Sends}
use aptos_etl.Extract.Loop.{tx_loop, pull_loop}
use aptos_etl.Extract.Spec.{one_by_one, pull_loop-one_by_one}
use aptos_etl.Extract.Rows.{collected}
use aptos_etl.Extract.Reach.{Names}
use aptos_etl.Extract.Outcome.{
  run, Complete, Lost, Broken, published-failed, published-ok, failed_on-Names,
  extract_range_complete,
}
use aptos_etl.Extract.Toy.{
  toy, two_responses, cut_short, with_thirteen, serve, serve_badly, counters, converts,
}

pull_loop-one_by_one_example :
    pull_loop toy new_all 7 5 (empty toy) two_responses
    ≡ one_by_one toy new_all 7 5 (empty toy) (5 ∷ 6 ∷ 7 ∷ []) none
pull_loop-one_by_one_example = pull_loop-one_by_one toy new_all 7 5 (empty toy) two_responses tt

extract_range_complete_example :
    (xs : List ℕ) × (map toy.try_from (5 ∷ 6 ∷ 7 ∷ []) ≡ map ok xs)
    × ((run toy (serve two_responses) 5 7 counters none).metrics ≡ count_request counters)
    × ((run toy (serve two_responses) 5 7 counters none).result ≡ ok tt)
    × Sends toy new_all 5 7
        (collected toy new_all xs)
        (run toy (serve two_responses) 5 7 counters none).published
extract_range_complete_example =
    extract_range_complete toy (serve two_responses) 5 7 counters none two_responses 2 refl
      (λ p. refl) (omega arith) tt refl refl
      (converts 5 refl, (converts 6 refl, (converts 7 refl, tt)))

cut_short_succeeds : (run toy (serve cut_short) 5 7 none none).result ≡ ok tt
unfolding extract_range finish pull_loop tx_loop add_tx add_signatures add_block add_transaction
    add_events add_changes do_blocks do_signatures do_transactions do_events
    do_changes_or_subchanges new_all
cut_short_succeeds = refl

whole_succeeds : (run toy (serve two_responses) 5 7 none none).result ≡ ok tt
unfolding extract_range finish publish_each publish_all publish_if pull_loop tx_loop add_tx
    add_signatures add_block add_transaction add_events add_changes do_blocks do_signatures
    do_transactions do_events do_changes do_modules do_resources do_table_items
    do_changes_or_subchanges new_all
whole_succeeds = refl

published-ok_example :
    Complete toy (serve two_responses) 5 7 none none (5 ∷ 6 ∷ 7 ∷ [])
    ⊎ Lost toy (serve two_responses) 5 7 none none (5 ∷ 6 ∷ 7 ∷ [])
published-ok_example =
    published-ok toy (serve two_responses) 5 7 none none two_responses refl (omega arith) tt
      whole_succeeds

abbrev thirteen_error : ExtractionInteruptionError toy
thirteen_error = record {
  extracterror = tx_extraction 13;
  start_version = 12;
  end_version = 14;
  failed_on = 13;
}

thirteen_fails : (run toy (serve with_thirteen) 12 14 none none).result ≡ err thirteen_error
unfolding extract_range finish pull_loop tx_loop add_tx add_signatures add_block add_transaction
    add_events add_changes do_blocks do_signatures do_transactions do_events
    do_changes_or_subchanges new_all
thirteen_fails = refl

badly_fails : (run toy (serve_badly two_responses) 5 7 none none).result ≡ panic
unfolding extract_range finish publish_each publish_all publish_if pull_loop tx_loop add_tx
    add_signatures add_block add_transaction add_events add_changes do_blocks do_signatures
    do_transactions do_events do_changes do_modules do_resources do_table_items
    do_changes_or_subchanges new_all
badly_fails = refl

not_ok : (r : Result (ExtractionInteruptionError toy) (Unit {0})) → r ≡ panic → r ≢ ok tt
not_ok r e h = cc

published-failed_example :
    ((run toy (serve_badly two_responses) 5 7 none none).published ≡ [])
    ⊎ (((run toy (serve_badly two_responses) 5 7 none none).result ≡ panic)
        × Broken toy
            (serve_badly two_responses)
            5
            7
            none
            none
            (run toy (serve_badly two_responses) 5 7 none none).published)
published-failed_example =
    published-failed toy (serve_badly two_responses) 5 7 none none
      (not_ok (run toy (serve_badly two_responses) 5 7 none none).result badly_fails)

failed_on-Names_example :
    (thirteen_error.start_version ≡ 12)
    × (thirteen_error.end_version ≡ 14)
    × Names toy new_all 12 (12 ∷ 13 ∷ 14 ∷ []) none (tx_extraction 13) 13
failed_on-Names_example =
    failed_on-Names toy (serve with_thirteen) 12 14 none none with_thirteen thirteen_error refl
      (omega arith) tt thirteen_fails
