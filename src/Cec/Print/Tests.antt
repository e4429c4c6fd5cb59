-- ===== src/Cec/Print/Tests.antt =====
-- Runs of the operators << at the filters of a packet.
use libstreetpass.Prelude.{◌≡◌, refl, [], ◌∷◌, ◌++◌, false, true}
use libstreetpass.Text
use libstreetpass.Text.{codes, new_stream}
use libstreetpass.Tins.Sample.{sample}
use libstreetpass.Cec.FilterList
use libstreetpass.Cec.Mve.Getters
use libstreetpass.Cec.Print
use libstreetpass.Cec.Print.{
  print_title, print_key, print_raw_bytes, print_filter_list, print_send_mode,
}
use libstreetpass.Cec.RawBytes
use libstreetpass.Cec.Samples.{a_title, a_key, a_raw, title_list}
use libstreetpass.Cec.SendMode
use libstreetpass.Cec.Tests
use libstreetpass.Cec.Title
use libstreetpass.Cec.Title.{title_filter}

-- Opens the definitions that print.
unfoldable pub shown : Unit {0}
unfolding Tests.run Text.put_text Text.digits Text.put_number SendMode.to_string Getters.mask
    Getters.value Getters.expectation RawBytes.raw_bytes Title.send_mode FilterList.flags
    Print.marker_to_string Print.print_mve Print.print_raw Print.print_raw_bytes Print.print_pairs
    Print.print_key Print.print_mves Print.put_enumerator Print.print_send_mode Print.print_marker
    Print.print_title Print.print_filters Print.print_filter_list Print.print_module_filter
shown = tt

shown_key : (print_key a_key new_stream).text ≡ codes "key=68c727390e2fbb04"
unfolding shown
shown_key = refl

shown_raw_bytes :
    (print_raw_bytes a_raw new_stream).text
    ≡ codes "RawBytes: size=10, bytes= 68 c7 27 39 e 2f bb 4 68 c7 27 39 e 2f bb 4"
unfolding shown
shown_raw_bytes = refl

shown_list :
    (print_filter_list false
      (title_filter sample)
      (print_title false sample)
      (title_list (a_title ∷ []))
      new_stream).text
    ≡ codes "FilterList: marker=TITLE_FILTER(01), flags=01, length=08\nContent:\n"
      ++ codes "Title: id=00310500, send_mode=SEND_RECV(03), mve_list= "
      ++ codes "MVE[mask=f, value=3, expectation=3]"
unfolding shown
shown_list = refl

-- Where an enumerator is printed as a character, the character of code 3 is.
shown_character : (print_send_mode true 3 new_stream).text ≡ codes "SEND_RECV(0" ++ 3 ∷ codes ")"
unfolding shown
shown_character = refl
