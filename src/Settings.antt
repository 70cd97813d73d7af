-- ===== src/Settings.antt =====
-- config/settings.py: the settings that the modelled owners read.
use defi_engine.Base.{String, List, [], ◌∷◌, if◌then◌else◌, str_eq}
use defi_engine.Base.Int.{ℤ, pos}
use defi_engine.Env.{Env}

abbrev pub default_sol_mint : String
default_sol_mint = "So11111111111111111111111111111111111111112"

abbrev pub default_usdc_mint : String
default_usdc_mint = "EPjFWdd5AufqSSqeM2qN1xzybapC8G4wEGGkZwyTDt1v"

-- The symbol hints: mint and symbol, in the order of the source's dict.
abbrev pub token_symbol_hints : List (String × String)
token_symbol_hints =
    (default_sol_mint, "SOL")
    ∷ (default_usdc_mint, "USDC")
    ∷ ("ZEUS1aR7aX8DFFJf5QjWj2ftDDdNTroMNGo8YoQm3Gq", "ZEUS")
    ∷ ("JUPyiwrYJFskUPiHa7hkeR8VUtAeFoSYbKedZNsDvCN", "JUP")
    ∷ ("DezXAZ8z7PnrnRJjz3wXBoRgixCa6xjnB7YaB1pPB263", "BONK")
    ∷ ("zBTCug3er3tLyffELcvDNrKkCymbPWysGcWihESYfLg", "zBTC")
    ∷ ("98sMhvDwXj1RQi5c5Mndm3vPe9cBqPrbLaufMXFNMh5g", "HYPE")
    ∷ ("PreweJYECqtQwBtpxHL171nL2K6umo692gTm7Q3rpgF", "OPENAI")
    ∷ []

-- `_usdc_mint()` of the owners: the first mint whose symbol is USDC. The hints hold one, so the
-- generator never runs dry.
unfoldable pub usdc_mint_from : List (String × String) → String
unfolding str_eq
usdc_mint_from [] = ""
usdc_mint_from ((mint, symbol) ∷ hints) =
    if str_eq symbol "USDC" then mint else usdc_mint_from hints

unfoldable pub usdc_mint : String
unfolding usdc_mint_from
usdc_mint = usdc_mint_from token_symbol_hints

-- The fields that an operator configures and the modelled owners read.
pub record Settings (E : Env) : Type 0 where
  pub token_universe : List String
  pub quote_amounts_lamports : List ℤ

abbrev pub default_token_universe : List String
default_token_universe =
    default_sol_mint ∷ default_usdc_mint ∷ "ZEUS1aR7aX8DFFJf5QjWj2ftDDdNTroMNGo8YoQm3Gq"
    ∷ "JUPyiwrYJFskUPiHa7hkeR8VUtAeFoSYbKedZNsDvCN" ∷ "DezXAZ8z7PnrnRJjz3wXBoRgixCa6xjnB7YaB1pPB263"
    ∷ "zBTCug3er3tLyffELcvDNrKkCymbPWysGcWihESYfLg" ∷ "98sMhvDwXj1RQi5c5Mndm3vPe9cBqPrbLaufMXFNMh5g"
    ∷ "PreweJYECqtQwBtpxHL171nL2K6umo692gTm7Q3rpgF" ∷ []

abbrev pub default_quote_amounts : List ℤ
default_quote_amounts = pos 1_000_000 ∷ pos 10_000_000 ∷ pos 100_000_000 ∷ pos 1_000_000_000 ∷ []
