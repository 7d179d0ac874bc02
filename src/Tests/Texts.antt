-- ===== src/Tests/Texts.antt =====
-- The texts of accounts.
use nanocap.Prelude.{arith, ◌+◌, ◌*◌, ◌^◌, ◌≡◌, refl, ◌++◌, take, [], ◌∷◌}
use mathlib.Core.List.{reverse}
use nanocap.Util.Text.{codes, to_string}
use nanocap.Util.Account.{pub_to_account, number, account_check, balance_to_dec}
use nanocap.Util.Account.Decode.{decode_letters, pub_to_account-decodes}
use nanocap.Tests.Data.{fill, test_env}

pub_to_account-decodes_example :
    decode_letters (take 60 (reverse (pub_to_account test_env.blake2b (fill 32 7))))
    ≡ number (fill 32 7) * 2 ^ 40 + account_check test_env.blake2b (fill 32 7)
pub_to_account-decodes_example =
    pub_to_account-decodes test_env.blake2b (fill 32 7) (unfold account_check in omega arith)

-- A balance of 256 + 2.
balance_of_258 : balance_to_dec (fill 14 0 ++ (1 ∷ 2 ∷ [])) ≡ codes "258"
unfolding balance_to_dec to_string
balance_of_258 = refl
