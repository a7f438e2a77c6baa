-- ===== src/Tests/Config.antt =====
-- Runs of Parse and ToString.
use dinner_is_servered.Prelude.{◌≡◌, ◌≢◌, refl, [], ◌∷◌, ◌++◌, Bytes}
use dinner_is_servered.Config.Syntax.{NginxConfig, plain, block, nil, cons}
use dinner_is_servered.Config.Lexer.{round, token_loop, parse_token}
use dinner_is_servered.Config.Parser.{
  parse, run, parse_loop, handle_token, update_back, accepted, rejected, undefined, out_of_fuel,
}
use dinner_is_servered.Config.Parser.Total.{parse-ne-out_of_fuel}
use dinner_is_servered.Config.Parser.Sound.{parse-IsPrintable}
use dinner_is_servered.Config.Parser.Rooted.{parse-ne-accepted_nil}
use dinner_is_servered.Config.Printable.{word, IsPrintable}
use dinner_is_servered.Config.Printer.{to_string}
use dinner_is_servered.Config.Printer.RoundTrip.{
  parse-to_string, parse-to_string-parse, parse_drops_last_word, parse_extra_brackets,
}

-- `server { listen 80; }`
abbrev input : Bytes
input = b's' ∷ b' ' ∷ b'{' ∷ b' ' ∷ b'l' ∷ b' ' ∷ b'8' ∷ b'0' ∷ b';' ∷ b' ' ∷ b'}' ∷ []

abbrev config : NginxConfig
config =
    cons (block ((b's' ∷ []) ∷ []) (cons (plain ((b'l' ∷ []) ∷ (b'8' ∷ b'0' ∷ []) ∷ [])) nil)) nil

parse-input : parse input ≡ accepted config
unfolding parse run parse_loop handle_token parse_token token_loop round update_back
parse-input = refl

config-IsPrintable : IsPrintable config
config-IsPrintable = (((word refl tt, tt), ((word refl tt, (word refl (refl, tt), tt)), tt)), tt)

config-ne-nil : config ≢ nil
config-ne-nil e = absurd cc

parse_unclosed : parse (b'"' ∷ b'a' ∷ []) ≡ rejected
unfolding parse run parse_loop handle_token parse_token token_loop round update_back
parse_unclosed = refl

parse_extra_bracket : parse (b'a' ∷ b';' ∷ b'}' ∷ []) ≡ rejected
unfolding parse run parse_loop handle_token parse_token token_loop round update_back
parse_extra_bracket = refl

parse-ne-out_of_fuel_example : parse input ≢ out_of_fuel
parse-ne-out_of_fuel_example = parse-ne-out_of_fuel input

parse-IsPrintable_example : IsPrintable config
parse-IsPrintable_example = parse-IsPrintable input config parse-input

parse-ne-accepted_nil_example : parse input ≢ accepted nil
parse-ne-accepted_nil_example = parse-ne-accepted_nil input

parse-to_string_example : parse (to_string 1 config) ≡ accepted config
parse-to_string_example = parse-to_string config 1 config-IsPrintable config-ne-nil

parse-to_string-parse_example : parse (to_string 0 config) ≡ accepted config
parse-to_string-parse_example = parse-to_string-parse input config 0 parse-input

parse_drops_last_word_example : parse (to_string 0 config ++ b'e' ∷ b'x' ∷ []) ≡ accepted config
parse_drops_last_word_example =
    parse_drops_last_word config 0 b'e' (b'x' ∷ []) config-IsPrintable config-ne-nil refl (refl, tt)

parse_extra_brackets_example : parse (to_string 0 config ++ b'}' ∷ b'}' ∷ input) ≡ undefined
parse_extra_brackets_example = parse_extra_brackets config 0 input config-IsPrintable config-ne-nil
