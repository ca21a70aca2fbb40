-- ===== src/Lex/Tests.antt =====
-- src/lex: runs of the tokenizer on small texts, with the classes of the ASCII characters.
use protosnirk.Prelude.{
  ◌≡◌, ◌≢◌, refl, ◌&&◌, ◌||◌, some, none, List, [], ◌∷◌, ◌++◌, Text, codes, leb, ◌==◌, Outcome, ok,
  out_of_fuel, starts_with, text_eq, pop_char,
}
use protosnirk.Lex.Span.{origin}
use protosnirk.Lex.Token.{Token, symbol, new_eof}
use protosnirk.Lex.Tokens.{type_of, is_keyword}
use protosnirk.Lex.Tokenizer.{tokenize, tokens, next, run, proceed}
use protosnirk.Lex.Tokenizer.Handlers.{
  Panic, new_tokenizer, reached_eof, Tokenizer, dispatch, next_in, next_line, next_eof, eof_on,
  outdent_on, next_outdent, indent_on, next_indent, float_exponent, float_decimal,
  parse_float_literal, word_token, parse_keyword_or_ident, symbol_end, parse_symbol, after_cr,
  line_on,
}
use protosnirk.Lex.Tokenizer.Chars.{
  CharClasses, char_is_spacing, char_is_symbol, take_while, skip_while, count_spaces, take_ident,
}
use protosnirk.Lex.Tokenizer.Symbol.{symbol_loop, rule_of, unmatched, not_newline}
use protosnirk.Lex.Tokenizer.Terminates.{tokenize_terminates, next-Ends, Ends}
use protosnirk.Lex.Tokenizer.Typed.{next-IsCut}
use protosnirk.Lex.Tokenizer.Symbol.{symbol_token, broken, partial_symbol}
use protosnirk.Lex.Tokenizer.Symbol.Merge.{merge, six, symbol_loop-ne-merge}
use protosnirk.Lex.Tokenizer.Handlers.Types.{IsCut}
use protosnirk.Lex.Tokens.{get_type}
use protosnirk.Lex.Tokenizer.Eof.{next_eof_again}
use protosnirk.Lex.Tokenizer.Handlers.Work.{work}
use protosnirk.Lex.Tokenizer.Balance.{
  tokenize_balanced, next-KeepsBlocks, NextKeeps, open_after, kinds,
}

-- The categories Sm, Sc and Sk of the symbols, N, and L.
abbrev pub ascii : CharClasses
ascii = record {
  is_symbol = λ c.
      c == b'+'
      || c == b'='
      || c == b'<'
      || c == b'>'
      || c == b'|'
      || c == b'~'
      || c == b'$'
      || c == b'^'
      || c == b'`';
  is_number = λ c. leb b'0' c && leb c b'9';
  is_letter = λ c. (leb b'a' c && leb c b'z') || (leb b'A' c && leb c b'Z');
}

abbrev sample : Text
sample = codes "fn a(x: float)\n  x += 1.5e3 // c\n    b\n\nend\n"

abbrev tokens_or_none : Outcome Panic (List Token) → List Token
tokens_or_none (ok ts) = ts
tokens_or_none _ = []

unfoldable sample_tokens : List Token
unfolding tokenize tokens next run proceed dispatch next_in next_line next_eof eof_on outdent_on
    next_outdent indent_on next_indent float_exponent float_decimal parse_float_literal word_token
    parse_keyword_or_ident symbol_end parse_symbol after_cr line_on char_is_spacing char_is_symbol
    take_while skip_while count_spaces take_ident symbol_loop rule_of unmatched not_newline text_eq
    starts_with pop_char is_keyword
sample_tokens = tokens_or_none (tokenize ascii sample)

tokenize-sample : tokenize ascii sample ≡ ok sample_tokens
unfolding sample_tokens tokenize tokens next run proceed dispatch next_in next_line next_eof eof_on
    outdent_on next_outdent indent_on next_indent float_exponent float_decimal parse_float_literal
    word_token parse_keyword_or_ident symbol_end parse_symbol after_cr line_on char_is_spacing
    char_is_symbol take_while skip_while count_spaces take_ident symbol_loop rule_of unmatched
    not_newline text_eq starts_with pop_char is_keyword
tokenize-sample = refl

tokenize_balanced_example : open_after 0 (kinds sample_tokens) ≡ some 0
tokenize_balanced_example = tokenize_balanced ascii sample sample_tokens tokenize-sample

tokenize_terminates_example : tokenize ascii sample ≢ out_of_fuel
tokenize_terminates_example = tokenize_terminates ascii sample

next-Ends_example : Ends (work (new_tokenizer sample)) (next ascii (new_tokenizer sample))
next-Ends_example = next-Ends ascii (new_tokenizer sample)

next-KeepsBlocks_example : NextKeeps (0 ∷ []) (next ascii (new_tokenizer sample))
next-KeepsBlocks_example = next-KeepsBlocks ascii (new_tokenizer sample) refl

symbol_loop-ne-merge_example :
    ((symbol_loop [] (codes "< HEAD") origin).0 ≢ symbol_token merge)
    × ((symbol_loop [] (six ++ codes "< HEAD") origin).0 ≡ broken partial_symbol)
symbol_loop-ne-merge_example = symbol_loop-ne-merge (codes "< HEAD") origin

-- Behind the last token of an empty text.
abbrev empty_end : Tokenizer
empty_end = record (new_tokenizer []) { tokenizer_state = reached_eof }

next_of_empty : next ascii (new_tokenizer []) ≡ ok (new_eof origin, empty_end)
unfolding next run dispatch next_in next_line next_eof eof_on skip_while
next_of_empty = refl

next_eof_again_example : next ascii empty_end ≡ ok (new_eof origin, empty_end)
next_eof_again_example =
    next_eof_again ascii (new_tokenizer []) empty_end (new_eof origin) next_of_empty refl

abbrev bang_end : Tokenizer
bang_end = record (new_tokenizer []) {
  iter = record { chars = []; location = record { index = 1; line = 0; column = 1 } };
}

abbrev bang_token : Token
bang_token = record { start = origin; text = codes "!"; kind = symbol }

next_of_bang : next ascii (new_tokenizer (codes "!")) ≡ ok (bang_token, bang_end)
unfolding next run dispatch next_in next_line skip_while char_is_spacing line_on char_is_symbol
    parse_symbol symbol_loop rule_of text_eq starts_with symbol_end
next_of_bang = refl

type_of_bang : get_type bang_token ≡ none
unfolding type_of
type_of_bang = refl

next-IsCut_example : IsCut bang_token bang_end
next-IsCut_example =
    next-IsCut ascii (new_tokenizer (codes "!")) bang_end bang_token next_of_bang type_of_bang
