-- ===== src/Spot/Tests.antt =====
-- Fills, run: two purchases, a sale, and a sale that leaves dust.
use sera_core.Prelude.{◌≡◌, refl, true, none, some, List, [], ◌∷◌, filter}
use sera_core.Dict
use sera_core.Text.{lower_char, to_lower, upper_char, to_upper, trim}
use sera_core.Spot.{
  UserSpotLedger, save, clean_address, clean_coin, put_holdings, record_buy, sold, record_sell,
  get_user_holdings,
}
use sera_core.Spot.Positions.{Fill, buys, sells, run_fills, book_of, book_fills, run_fills-refines}

abbrev empty_ledger : UserSpotLedger
empty_ledger = record { records = []; file = none; writable = true }

abbrev fills : List Fill
fills =
    buys 1 "0xAb" "hype" 500 9000000
    ∷ buys 2 " 0xab" "HYPE " 700 9000000
    ∷ sells 3 "0xab" "HYPE" 200 4000000
    ∷ sells 4 "0xcd" "HYPE" 5 5
    ∷ buys 5 "0xcd" "BTC" 300 7
    ∷ sells 6 "0xcd" "btc" 200 9
    ∷ []

run_fills-refines_example :
    book_of (run_fills fills empty_ledger) ≡ book_fills fills (book_of empty_ledger)
run_fills-refines_example = run_fills-refines fills empty_ledger

run_fills-positions :
    book_of (run_fills fills empty_ledger) "0xab" "HYPE"
      ∷ book_of (run_fills fills empty_ledger) "0xcd" "BTC"
      ∷ []
    ≡ some (1000, 14000000) ∷ none ∷ []
unfolding Dict.get Dict.set Dict.delete lower_char to_lower upper_char to_upper trim save
    clean_address clean_coin put_holdings record_buy sold record_sell run_fills book_of
run_fills-positions = refl

no_holdings : get_user_holdings "0xcd" (run_fills fills empty_ledger) ≡ []
unfolding Dict.get Dict.set Dict.delete Dict.values lower_char to_lower upper_char to_upper trim
    save clean_address clean_coin put_holdings record_buy sold record_sell run_fills
    get_user_holdings filter
no_holdings = refl
