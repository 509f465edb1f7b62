-- ===== src/Chain/EthFees/Examples.antt =====
-- Examples for the fees of chain/tx_eth.go, with integers in strokes.
use teenet_wallet.Base.{◌≡◌, refl, pos, negsuc, none, some, ◌⊎◌, ◌<◌}
use teenet_wallet.Chain.EthFees.{EthTxParams, bump, bump_eth_gas}
use teenet_wallet.Chain.EthFees.Tally.{tally_ints, parse-print_tally}
use teenet_wallet.Chain.EthFees.Laws.{bump_eth_gas_lem, SamePayment, RaisesFees, bump_nat}

bump_100 : bump (pos 100) ≡ pos 126
bump_100 = refl

bump_minus_100 : bump (negsuc 99) ≡ negsuc 123
bump_minus_100 = refl

abbrev params : EthTxParams
params = record {
  nonce = 5;
  max_fee_per_gas = "IIIIIIII";
  max_priority_fee_per_gas = "IIII";
  gas_limit = 3;
  chain_id = "I";
  from = "a";
  to = "b";
  value = "III";
  call_data = "";
  gas_price = "";
}

bump_eth_gas_lem_example :
    ((10000000000 < bump_nat 4) × (bump_eth_gas tally_ints params ≡ none))
    ⊎ ((q : EthTxParams) × (bump_eth_gas tally_ints params ≡ some q)
        × SamePayment params q
        × RaisesFees tally_ints 4 8 q)
bump_eth_gas_lem_example = bump_eth_gas_lem tally_ints params 4 8 parse-print_tally refl refl
