-- ===== src/Examples/Logs.antt =====
-- The log writer on small logs.
use pici.Base.{
  ◌≡◌, refl, ◌≢◌, false, List, [], ◌∷◌, ◌++◌, map, arith, All, Text, codes, has_prefix, contains,
}
use pici.Mask.{
  redact, cleaned, new_writer, flush, open_sink, write_chunks, replace_from, replace_all,
}
use pici.Mask.Lines.{lines, join, write_chunks-flush}
use pici.Mask.Redacts.{redact-removes}
use pici.Mask.Sealed.{write_chunks-sealed}
use pici.Mask.Multiline.{multiline_unmasked}

abbrev password : Text
password = codes "hunter2"

abbrev other_secret : Text
other_secret = codes "ter"

abbrev log_chunks : List Text
log_chunks = codes "login hun" ∷ codes "ter2 ok\nbye" ∷ []

abbrev key_file : Text
key_file = codes "BEGIN\nabc\nEND"

redact_run : redact (codes "x hunter2 y") (password ∷ []) ≡ codes "x *** y"
unfolding redact replace_all replace_from has_prefix
redact_run = refl

password_full : password ≢ []
password_full e = ground arith

redact-removes_example :
    contains password (redact (codes "x hunter2 y") ((other_secret ∷ []) ++ password ∷ [])) ≡ false
redact-removes_example =
    redact-removes (other_secret ∷ []) (codes "x hunter2 y") password [] refl password_full

write_chunks-sealed_example :
    All
      (λ l. contains password l ≡ false)
      (flush open_sink
        (write_chunks open_sink (new_writer ([] ++ password ∷ [])) log_chunks)).0.written
write_chunks-sealed_example =
    write_chunks-sealed open_sink [] password [] log_chunks refl password_full

write_chunks-flush_example :
    (flush open_sink (write_chunks open_sink (new_writer (password ∷ [])) log_chunks)).0.written
    ≡ map (λ l. redact l (cleaned (password ∷ []))) (lines (join log_chunks))
write_chunks-flush_example = write_chunks-flush (password ∷ []) log_chunks

multiline_unmasked_example :
    join
      (flush open_sink
        (write_chunks open_sink (new_writer (key_file ∷ [])) (key_file ∷ []))).0.written
    ≡ join (key_file ∷ [])
multiline_unmasked_example = multiline_unmasked (key_file ∷ []) (key_file ∷ []) refl
