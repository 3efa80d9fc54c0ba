-- ===== src/Mbr/Tests.antt =====
-- Runs of the model of editdisklbl/config_mbr.c, and its theorem at a concrete disk.
use platform_bootable_iago.Base.{
  ℕ, ◌≤◌, ◌^◌, ◌-◌, ◌++◌, ◌⊎◌, ◌≡◌, refl, arith, List, [], ◌∷◌, Option, none, some, bytes_eq,
  length-replicate, replicate,
}
use platform_bootable_iago.Gpt.Name.{decimal, decimal_from}
use platform_bootable_iago.Mbr.{
  PartInfo, DiskInfo, WriteItem, cfg_pentry, to_lba, kb_to_lba, mk_pri_pentry, extend, no_space,
  mk_extended, mk_ext_pentry, next_pentry, config_part, config_parts, fill_blank, mk_empty_ptable,
  config_mbr, find_name, find_mbr_part,
}
use platform_bootable_iago.Mbr.Commit.{placed_from}
use platform_bootable_iago.Mbr.Length.{
  digit_value, digits, based, signed, strtoull, multiple_of, scaled, number_part, parse_tmp,
  parse_len,
}
use platform_bootable_iago.Mbr.Length.Laws.{parse_len_bounds, parse_len-kilo_mega}
use platform_bootable_iago.Mbr.Device.{Bootable, config_mbr-commit}

abbrev pub boot : PartInfo
boot = record { name = b'b' ∷ []; flags = 1; type = 0x0c; len_kb = 1000; start_lba = 0 }

abbrev pub rest : PartInfo
rest = record { name = b'r' ∷ []; flags = 0; type = 0x83; len_kb = 0xffffffff; start_lba = 0 }

-- A disk of 100000 blocks with two partitions, the second of which fills it.
abbrev pub two : DiskInfo
two = record {
  device = b's' ∷ b'd' ∷ b'a' ∷ [];
  scheme = 1;
  sect_size = 512;
  skip_lba = 2048;
  num_lba = 100000;
  part_lst = boot ∷ rest ∷ [];
}

abbrev pub two_list : List WriteItem
two_list =
    mk_empty_ptable
    ∷ record { offset = 494; bytes = cfg_pentry 0 0 0 0 }
    ∷ record { offset = 478; bytes = cfg_pentry 0 0 0 0 }
    ∷ record { offset = 462; bytes = cfg_pentry 0 0x83 4048 95952 }
    ∷ record { offset = 446; bytes = cfg_pentry 0x80 0x0c 2048 2000 }
    ∷ []

pub two_config :
    config_mbr two
    ≡ some (two_list, record boot { start_lba = 2048 } ∷ record rest { start_lba = 4048 } ∷ [])
unfolding config_mbr config_parts config_part extend no_space mk_pri_pentry to_lba fill_blank
two_config = refl

abbrev dev : List ℕ
dev = replicate 600 7

config_mbr-commit_example :
    (record boot { start_lba = 2048 } ∷ record rest { start_lba = 4048 } ∷ []
      ≡ placed_from two two.part_lst two.skip_lba)
    × Bootable two
        (record boot { start_lba = 2048 } ∷ record rest { start_lba = 4048 } ∷ [])
        two_list
        dev
config_mbr-commit_example =
    config_mbr-commit two two_list
      (record boot { start_lba = 2048 } ∷ record rest { start_lba = 4048 } ∷ []) dev
      (omega (arith, length-replicate {A = ℕ} 600 7)) (omega arith) two_config

-- Five partitions: the last two are logical ones, the numbers of which begin at 5.
abbrev five : DiskInfo
five = record two { part_lst = boot ∷ boot ∷ boot ∷ boot ∷ rest ∷ [] }

five_places :
    elim (config_mbr five) as (λ x. Option (List PartInfo)) [
      | none ↦ none
      | some (wr, ps) ↦ some ps
    ]
    ≡ some (
        record boot { start_lba = 2048 }
        ∷ record boot { start_lba = 4048 }
        ∷ record boot { start_lba = 6048 }
        ∷ record boot { start_lba = 8049 }
        ∷ record rest { start_lba = 10050; len_kb = 44975 }
        ∷ [])
unfolding config_mbr config_parts config_part extend no_space mk_pri_pentry mk_extended
    mk_ext_pentry next_pentry kb_to_lba to_lba fill_blank
five_places = refl

five_node : find_mbr_part five (b'r' ∷ []) ≡ some (b's' ∷ b'd' ∷ b'a' ∷ b'6' ∷ [])
unfolding find_mbr_part find_name decimal decimal_from bytes_eq
five_node = refl

-- "10M", "0x10" and "-1"
lengths :
    (parse_len (b'1' ∷ b'0' ∷ b'M' ∷ []) ≡ some 10240)
    × (parse_len (b'0' ∷ b'x' ∷ b'1' ∷ b'0' ∷ []) ≡ some 16)
    × (parse_len (b'-' ∷ b'1' ∷ []) ≡ some (2 ^ 64 - 1))
unfolding parse_len parse_tmp number_part scaled multiple_of strtoull signed based digits
    digit_value
lengths = (refl, refl, refl)

parse_len_bounds_example : (10240 ≤ 0xffffffff) ⊎ (◌≡◌ {A = ℕ} 10240 (2 ^ 64 - 1))
parse_len_bounds_example = parse_len_bounds (b'1' ∷ b'0' ∷ b'M' ∷ []) 10240 lengths.0

parse_len-kilo_mega_example :
    parse_len ((b'1' ∷ b'0' ∷ []) ++ (b'K' ∷ [])) ≡ parse_len ((b'1' ∷ b'0' ∷ []) ++ (b'M' ∷ []))
parse_len-kilo_mega_example = parse_len-kilo_mega (b'1' ∷ b'0' ∷ []) (omega arith)
