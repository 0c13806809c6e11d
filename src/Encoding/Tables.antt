-- ===== src/Encoding/Tables.antt =====
-- src/en_bics.h and en_atari.h: the two tables of replacements.
mod Bics1
mod Bics2
mod Bics3
mod Bics4
mod Bics5
mod Atari1
mod Atari2
mod Atari3
use highwire.Common.{List, [], ◌∷◌, ◌++◌}
use highwire.Encoding.Row.{Row}
use Bics1.{bics_1}
use Bics2.{bics_2}
use Bics3.{bics_3}
use Bics4.{bics_4}
use Bics5.{bics_5}
use Atari1.{atari_1}
use Atari2.{atari_2}
use Atari3.{atari_3}

unfoldable pub unicode_to_bics_tab : List Row
unfolding bics_1 bics_2 bics_3 bics_4 bics_5
unicode_to_bics_tab = bics_1 ++ (bics_2 ++ (bics_3 ++ (bics_4 ++ bics_5)))

unfoldable pub unicode_to_atari_tab : List Row
unfolding atari_1 atari_2 atari_3
unicode_to_atari_tab = atari_1 ++ (atari_2 ++ atari_3)
