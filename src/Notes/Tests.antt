-- ===== src/Notes/Tests.antt =====
-- Updates of the notes of the sample catalog.
use trolley.Base.{◌≡◌, refl, none, some, err}
use trolley.Catalog.Sample.{sample}
use trolley.Notes.{present, notes_of, notes_view, write_notes, conflict}
use trolley.Notes.Conflict.{write_notes_once}

write_notes_once_example :
    let c = (write_notes 20 1 none (some "UTC") 1 9 sample).1 in
    write_notes 20 1 (some "Sales") none 2 10 c ≡ (err conflict, c)
unfolding present notes_of notes_view
write_notes_once_example =
    write_notes_once 20 1 none (some "UTC") (some "Sales") none 1 2 9 10 sample (refl, tt) refl refl
