-- ===== src/Fixtures.antt =====
-- A small stand-in for the standard library's serialiser and digest, on which tests run.
use Prim.Native.String.{◌++◌ as text_append}
use marketpilot.Base.{String, if◌then◌else◌}
use marketpilot.Domain.Snapshot.{
  Json, Items, Fields, null, flag, text, number, float, instant, day, list, object, nil, cons, end,
  field, Platform,
}

abbrev mutual
  dumps : Json → String
  dumps null = "null"
  dumps (flag b) = if b then "true" else "false"
  dumps (text s) = s
  dumps (number n) = "0"
  dumps (float s) = s
  dumps (instant t) = "Z"
  dumps (day d) = "D"
  dumps (list xs) = dumps_items xs
  dumps (object fs) = dumps_fields fs

  dumps_items : Items → String
  dumps_items nil = ""
  dumps_items (cons x xs) = text_append (dumps x) (dumps_items xs)

  dumps_fields : Fields → String
  dumps_fields end = ""
  dumps_fields (field k v fs) = text_append k (text_append (dumps v) (dumps_fields fs))

abbrev pub toy : Platform
toy = record { dumps = dumps; sha256 = λ s. s }
