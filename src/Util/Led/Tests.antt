-- ===== src/Util/Led/Tests.antt =====
-- A LED that is on for one of three parts of its period.
use picolibs.Base.{◌≡◌, refl, true, some, [], ◌++◌, arith}
use picolibs.Alarm.{is_set}
use picolibs.Util.Led.{Led, flash_mask, set_flash}
use picolibs.Util.Led.Flash.{Flashes, fires, history, fires_lem, set_flash-Flashes}

abbrev third : Led
third = record {
  flash_period = 900;
  flash_pattern = 1;
  flash_bits = 3;
  flash_index = 2;
  flasher = some 5;
  shown = [];
}

third-Flashes : Flashes third
third-Flashes = record {
  some_bits = omega arith;
  few_bits = omega arith;
  inside = omega arith;
  slow = omega arith;
}

fires_lem_example :
    fires 4 third ≡ some (record third { flash_index = 0; shown = history 1 3 2 4 ++ [] })
fires_lem_example = fires_lem 4 third third-Flashes

three_bits : flash_mask 3 ≡ some 7
unfolding flash_mask
three_bits = refl

set_flash-Flashes_example :
    (led' : Led) × (set_flash (some 9) 600 third ≡ some (true, led'))
    × Flashes led'
    × (led'.flash_period ≡ 600)
    × (led'.flasher ≡ some 5)
    × (is_set led'.flasher ≡ true)
    × (led'.shown ≡ [])
set_flash-Flashes_example =
    set_flash-Flashes (some 9) 600 7 third three_bits refl refl (omega arith)
