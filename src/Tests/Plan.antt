-- ===== src/Tests/Plan.antt =====
-- The plan of the hardforks, over precompiles that have revm's prices and do nothing else.
use dogeos_revm.Prelude.{ℕ, refl, none, some, ltb, leb, false, if◌then◌else◌, ok, err, arith}
use dogeos_revm.Uint.{native}
use dogeos_revm.L1Block.{u64_max}
use dogeos_revm.Spec.{tsuki}
use dogeos_revm.Gas.{GasId, GasTables}
use dogeos_revm.Builder.{CfgEnv}
use dogeos_revm.Precompile.{
  PrecompileFn, PrecompileId, ec_rec, identity, bn254_add, bn254_mul, bn254_pairing, p256_verify,
  Precompile, RevmPrecompiles, out_of_gas,
}
use dogeos_revm.Precompile.Sets.Plan.{MatchesPlan, CostsExactly}
use dogeos_revm.Precompile.Sets.Plan.Calls.{ZeroInputCosts}
use dogeos_revm.Precompile.Sets.Plan.Matches.{TransferAnswers, ShanghaiLaws, new_scroll-MatchesPlan}
use dogeos_revm.Tests.Precompiles.{revm, tables}
use dogeos_revm.Tests.Config.{gas_tables, cfg_ops}
use dogeos_revm.Tests.Transfers.{ledger, byte_ops}

abbrev priced : ℕ → PrecompileFn
priced price input gas =
    if ltb gas price
    then err out_of_gas
    else ok (record { gas_used = price; bytes = input; reverted = false })

abbrev at_price : ℕ → PrecompileId → ℕ → Precompile
at_price price id address = record { id = id; address = address; run = priced price }

abbrev priced_revm : RevmPrecompiles
priced_revm = record revm {
  ecrecover = at_price 3_000 ec_rec 1;
  identity_fun = at_price 15 identity 4;
  bn254_add_istanbul = at_price 150 bn254_add 6;
  bn254_mul_istanbul = at_price 6_000 bn254_mul 7;
  bn254_pair_istanbul = at_price 45_000 bn254_pairing 8;
  p256verify = at_price 3_450 p256_verify 256;
  p256verify_osaka = at_price 6_900 p256_verify 256;
  sha256_run = priced 60;
  ripemd160_run = priced 600;
  run_pair = λ input per_point base gas. priced base input gas;
  modexp_run_inner_berlin = λ osaka input gas min_gas. priced min_gas input gas;
  modexp_osaka_run = priced 500;
  padded_word = λ input offset. 0;
  ecrecover_at = (refl, refl);
  identity_at = (refl, refl);
  bn254_add_at = (refl, refl);
  bn254_mul_at = (refl, refl);
  bn254_pair_at = (refl, refl);
  p256verify_at = (refl, refl);
  p256verify_osaka_at = (refl, refl);
}

priced_costs : ZeroInputCosts priced_revm
unfolding CostsExactly
priced_costs = record {
  ecrecover = ((_, refl, refl), refl);
  sha256 = ((_, refl, refl), refl);
  ripemd160 = ((_, refl, refl), refl);
  identity = ((_, refl, refl), refl);
  modexp_berlin = ((_, refl, refl), refl);
  modexp_osaka = ((_, refl, refl), refl);
  bn254_add = ((_, refl, refl), refl);
  bn254_mul = ((_, refl, refl), refl);
  pairing = ((_, refl, refl), refl);
  pairing_istanbul = ((_, refl, refl), refl);
  p256 = ((_, refl, refl), refl);
  p256_osaka = ((_, refl, refl), refl);
  padded = λ offset. refl;
}

abbrev zero_tables : GasTables
zero_tables = record gas_tables { new_spec = λ spec id. 0; get-override_gas = λ os p id. refl }

abbrev cap_or_max : CfgEnv (GasId → ℕ) (Unit {0}) → ℕ
cap_or_max cfg = elim cfg.tx_gas_limit_cap [ some cap ↦ cap | none ↦ u64_max ]

shanghai_laws : ShanghaiLaws tables priced_revm priced_costs zero_tables cfg_ops cap_or_max
shanghai_laws = record {
  no_eip7702 = refl;
  no_token_floor = refl;
  no_base_floor = refl;
  uncapped = λ cfg. refl;
}

ledger_answers : TransferAnswers ledger
ledger_answers = record {
  answers = λ from to value s. ((if leb value (s from) then none else some 0), ground arith);
}

new_scroll-MatchesPlan_example :
    MatchesPlan tables priced_revm zero_tables cfg_ops cap_or_max native ledger byte_ops tsuki
new_scroll-MatchesPlan_example =
    new_scroll-MatchesPlan tables priced_revm priced_costs zero_tables cfg_ops cap_or_max native
      ledger byte_ops shanghai_laws ledger_answers tsuki
