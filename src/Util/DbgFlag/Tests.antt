-- ===== src/Util/DbgFlag/Tests.antt =====
-- `+1f`, and forty letters.
use picolibs.Base.{◌≤◌, [], arith, length, replicate}
use picolibs.Util.DbgFlag.{chars_avail}
use picolibs.Util.DbgFlag.Typing.{chars_avail_bound}

chars_avail_bound_example :
    length (chars_avail (replicate 40 97) (record { flags = 0; typed = [] })).typed ≤ 32
chars_avail_bound_example =
    chars_avail_bound (replicate 40 97) (record { flags = 0; typed = [] }) (omega arith)
