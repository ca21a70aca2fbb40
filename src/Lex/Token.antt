-- ===== src/Lex/Token.antt =====
-- src/lex/token.rs: tokens.
use protosnirk.Prelude.{[], Text, byte_len}
use protosnirk.Lex.Span.{Location, Span, between, offset}

pub data TokenData : Type 0 where
  number_literal unit_literal bool_literal ident keyword type_name symbol : TokenData
  begin_block end_block eof : TokenData

pub record Token : Type 0 where
  pub start : Location
  pub text : Text
  pub kind : TokenData

-- `Token::end`: the offset is the number of bytes of the text.
abbrev pub end : Token → Location
end t = offset t.start (byte_len t.text)

-- `Token::span`.
abbrev pub span : Token → Span
span t = between t.start (offset t.start (byte_len t.text))

-- `Token::new`.
abbrev pub new : Text → Location → TokenData → Token
new text start kind = record { start = start; text = text; kind = kind }

abbrev pub new_ident : Text → Location → Token
new_ident text start = record { start = start; text = text; kind = ident }

abbrev pub new_indent : Location → Token
new_indent start = record { start = start; text = []; kind = begin_block }

abbrev pub new_outdent : Location → Token
new_outdent start = record { start = start; text = []; kind = end_block }

abbrev pub new_eof : Location → Token
new_eof start = record { start = start; text = []; kind = eof }
