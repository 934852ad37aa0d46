-- ===== src/Strings/Format.antt =====
-- `template % values` as mig/analyser/grinder.py uses it: `%s` takes the next of a tuple of texts,
-- `%(name)s` looks a text up, and `%%` is a percent sign. Other conversions are not modelled: here they
-- end in a ValueError.
use dnstools.Chart.{Text}
use dnstools.Prelude.{
  ◌==◌, if◌then◌else◌, ◌>>=◌, Error, Result, ok, err, ℕ, true, false, List, [], ◌∷◌, ◌++◌,
}
pub mod Escaped
use dnstools.Strings.{same}

pub data Values : Type 0 where
  tuple : List Text → Values
  mapping : List (Text × Text) → Values

-- Where the reading of a template is: in plain text, behind a percent sign, in a name, behind a name.
pub data Reading : Type 0 where
  plain percent : Reading
  in_name named : Text → Reading

abbrev percent_sign : ℕ
percent_sign = b'%'

unfoldable pub find_text : Text → List (Text × Text) → Result Text
unfolding same
find_text name [] = err Error.key_error
find_text name ((k, v) ∷ rest) = if same k name then ok v else find_text name rest

abbrev value_named : Text → Values → Result Text
value_named name (tuple ts) = err Error.type_error
value_named name (mapping m) = find_text name m

-- The next text of a tuple, and what is left.
abbrev next_value : Values → Result (Text × Values)
next_value (tuple []) = err Error.type_error
next_value (tuple (t ∷ ts)) = ok (t, tuple ts)
next_value (mapping m) = err Error.value_error

-- At the end: a text that is left over is an error.
abbrev end_of : Reading → Values → Result Text
end_of plain (tuple (t ∷ ts)) = err Error.type_error
end_of plain values = ok []
end_of reading values = err Error.value_error

unfoldable pub format : Reading → Text → Values → Result Text
unfolding find_text
format reading [] values = end_of reading values
format plain (c ∷ cs) values = elim (c == percent_sign) [
  | true ↦ format percent cs values
  | false ↦ format plain cs values >>= λ out. ok (c ∷ out)
]
format percent (c ∷ cs) values = elim (c == percent_sign) [
  | true ↦ format plain cs values >>= λ out. ok (c ∷ out)
  | false ↦ elim (c == b's') [
    | true ↦ next_value values >>= λ (t, left). format plain cs left >>= λ out. ok (t ++ out)
    | false ↦ elim (c == b'(') [
      | true ↦ format (in_name []) cs values
      | false ↦ err Error.value_error
    ]
  ]
]
format (in_name name) (c ∷ cs) values = elim (c == b')') [
  | true ↦ format (named name) cs values
  | false ↦ format (in_name (name ++ (c ∷ []))) cs values
]
format (named name) (c ∷ cs) values = elim (c == b's') [
  | true ↦ value_named name values >>= λ t. format plain cs values >>= λ out. ok (t ++ out)
  | false ↦ err Error.value_error
]
