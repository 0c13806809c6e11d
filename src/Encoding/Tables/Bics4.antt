-- ===== src/Encoding/Tables/Bics4.antt =====
-- src/en_bics.h: rows of the table from Unicode to the BICS font codes.
use highwire.Common.{List, [], ◌∷◌}
use highwire.Encoding.Row.{Row, small, multi}

unfoldable pub bics_4 : List Row
bics_4 =
    small 0x2319 501 0
    ∷ small 0x2320 300 0
    ∷ small 0x2321 301 0
    ∷ multi 0x2324 (230 ∷ 62 ∷ 230 ∷ [])
    ∷ small 0x2329 28 0
    ∷ small 0x232A 30 0
    ∷ small 0x2335 86 0
    ∷ small 0x237A 319 0
    ∷ small 0x23A1 510 0
    ∷ small 0x23A2 518 0
    ∷ small 0x23A3 512 0
    ∷ small 0x23A4 430 0
    ∷ small 0x23A5 518 0
    ∷ small 0x23A6 511 0
    ∷ small 0x23AE 496 0
    ∷ small 0x23AF 509 0
    ∷ small 0x23B7 302 0
    ∷ small 0x23B8 518 0
    ∷ small 0x23B9 518 0
    ∷ small 0x23BE 510 0
    ∷ small 0x23BF 512 0
    ∷ small 0x23C0 329 0
    ∷ small 0x23C9 514 0
    ∷ small 0x23CA 515 0
    ∷ small 0x23CB 430 0
    ∷ small 0x23CC 511 0
    ∷ small 0x23CE 293 511
    ∷ multi 0x2474 (8 ∷ 17 ∷ 9 ∷ [])
    ∷ multi 0x2475 (8 ∷ 18 ∷ 9 ∷ [])
    ∷ multi 0x2476 (8 ∷ 19 ∷ 9 ∷ [])
    ∷ multi 0x2477 (8 ∷ 20 ∷ 9 ∷ [])
    ∷ multi 0x2478 (8 ∷ 21 ∷ 9 ∷ [])
    ∷ multi 0x2479 (8 ∷ 22 ∷ 9 ∷ [])
    ∷ multi 0x247A (8 ∷ 23 ∷ 9 ∷ [])
    ∷ multi 0x247B (8 ∷ 24 ∷ 9 ∷ [])
    ∷ multi 0x247C (8 ∷ 25 ∷ 9 ∷ [])
    ∷ multi 0x247D (8 ∷ 17 ∷ 16 ∷ 9 ∷ [])
    ∷ multi 0x247E (8 ∷ 17 ∷ 17 ∷ 9 ∷ [])
    ∷ multi 0x247F (8 ∷ 17 ∷ 18 ∷ 9 ∷ [])
    ∷ multi 0x2480 (8 ∷ 17 ∷ 19 ∷ 9 ∷ [])
    ∷ multi 0x2481 (8 ∷ 17 ∷ 20 ∷ 9 ∷ [])
    ∷ multi 0x2482 (8 ∷ 17 ∷ 21 ∷ 9 ∷ [])
    ∷ multi 0x2483 (8 ∷ 17 ∷ 22 ∷ 9 ∷ [])
    ∷ multi 0x2484 (8 ∷ 17 ∷ 23 ∷ 9 ∷ [])
    ∷ multi 0x2485 (8 ∷ 17 ∷ 24 ∷ 9 ∷ [])
    ∷ multi 0x2486 (8 ∷ 17 ∷ 25 ∷ 9 ∷ [])
    ∷ multi 0x2487 (8 ∷ 18 ∷ 16 ∷ 9 ∷ [])
    ∷ small 0x2488 17 14
    ∷ small 0x2489 18 14
    ∷ small 0x248A 19 14
    ∷ small 0x248B 20 14
    ∷ small 0x248C 21 14
    ∷ small 0x248D 22 14
    ∷ small 0x248E 23 14
    ∷ small 0x248F 24 14
    ∷ small 0x2490 25 14
    ∷ multi 0x2491 (17 ∷ 16 ∷ 14 ∷ [])
    ∷ multi 0x2492 (17 ∷ 17 ∷ 14 ∷ [])
    ∷ multi 0x2493 (17 ∷ 18 ∷ 14 ∷ [])
    ∷ multi 0x2494 (17 ∷ 19 ∷ 14 ∷ [])
    ∷ multi 0x2495 (17 ∷ 20 ∷ 14 ∷ [])
    ∷ multi 0x2496 (17 ∷ 21 ∷ 14 ∷ [])
    ∷ multi 0x2497 (17 ∷ 22 ∷ 14 ∷ [])
    ∷ multi 0x2498 (17 ∷ 23 ∷ 14 ∷ [])
    ∷ multi 0x2499 (17 ∷ 24 ∷ 14 ∷ [])
    ∷ multi 0x249A (17 ∷ 25 ∷ 14 ∷ [])
    ∷ multi 0x249B (18 ∷ 16 ∷ 14 ∷ [])
    ∷ multi 0x249C (8 ∷ 65 ∷ 9 ∷ [])
    ∷ multi 0x249D (8 ∷ 66 ∷ 9 ∷ [])
    ∷ multi 0x249E (8 ∷ 67 ∷ 9 ∷ [])
    ∷ multi 0x249F (8 ∷ 68 ∷ 9 ∷ [])
    ∷ multi 0x24A0 (8 ∷ 69 ∷ 9 ∷ [])
    ∷ multi 0x24A1 (8 ∷ 70 ∷ 9 ∷ [])
    ∷ multi 0x24A2 (8 ∷ 71 ∷ 9 ∷ [])
    ∷ multi 0x24A3 (8 ∷ 72 ∷ 9 ∷ [])
    ∷ multi 0x24A4 (8 ∷ 73 ∷ 9 ∷ [])
    ∷ multi 0x24A5 (8 ∷ 74 ∷ 9 ∷ [])
    ∷ multi 0x24A6 (8 ∷ 75 ∷ 9 ∷ [])
    ∷ multi 0x24A7 (8 ∷ 76 ∷ 9 ∷ [])
    ∷ multi 0x24A8 (8 ∷ 77 ∷ 9 ∷ [])
    ∷ multi 0x24A9 (8 ∷ 78 ∷ 9 ∷ [])
    ∷ multi 0x24AA (8 ∷ 79 ∷ 9 ∷ [])
    ∷ multi 0x24AB (8 ∷ 80 ∷ 9 ∷ [])
    ∷ multi 0x24AC (8 ∷ 81 ∷ 9 ∷ [])
    ∷ multi 0x24AD (8 ∷ 82 ∷ 9 ∷ [])
    ∷ multi 0x24AE (8 ∷ 83 ∷ 9 ∷ [])
    ∷ multi 0x24AF (8 ∷ 84 ∷ 9 ∷ [])
    ∷ multi 0x24B0 (8 ∷ 85 ∷ 9 ∷ [])
    ∷ multi 0x24B1 (8 ∷ 86 ∷ 9 ∷ [])
    ∷ multi 0x24B2 (8 ∷ 87 ∷ 9 ∷ [])
    ∷ multi 0x24B3 (8 ∷ 88 ∷ 9 ∷ [])
    ∷ multi 0x24B4 (8 ∷ 89 ∷ 9 ∷ [])
    ∷ multi 0x24B5 (8 ∷ 90 ∷ 9 ∷ [])
    ∷ small 0x2500 509 0
    ∷ small 0x2502 518 0
    ∷ small 0x250C 510 0
    ∷ small 0x2510 430 0
    ∷ small 0x2514 512 0
    ∷ small 0x2518 511 0
    ∷ small 0x251C 516 0
    ∷ small 0x2524 517 0
    ∷ small 0x252C 514 0
    ∷ small 0x2534 515 0
    ∷ small 0x253C 513 0
    ∷ small 0x2550 519 0
    ∷ small 0x2551 529 0
    ∷ small 0x2552 557 0
    ∷ small 0x2553 556 0
    ∷ small 0x2554 521 0
    ∷ small 0x2555 551 0
    ∷ small 0x2556 550 0
    ∷ small 0x2557 520 0
    ∷ small 0x2558 555 0
    ∷ small 0x2559 554 0
    ∷ small 0x255A 523 0
    ∷ small 0x255B 553 0
    ∷ small 0x255C 552 0
    ∷ small 0x255D 522 0
    ∷ small 0x255E 530 0
    ∷ small 0x255F 536 0
    ∷ small 0x2560 527 0
    ∷ small 0x2561 531 0
    ∷ small 0x2562 537 0
    ∷ small 0x2563 528 0
    ∷ small 0x2564 549 0
    ∷ small 0x2565 533 0
    ∷ small 0x2566 525 0
    ∷ small 0x2567 548 0
    ∷ small 0x2568 532 0
    ∷ small 0x2569 526 0
    ∷ small 0x256A 534 0
    ∷ small 0x256B 535 0
    ∷ small 0x256C 524 0
    ∷ small 0x256D 510 0
    ∷ small 0x256E 430 0
    ∷ small 0x256F 511 0
    ∷ small 0x2570 512 0
    ∷ small 0x2580 304 0
    ∷ small 0x2584 305 0
    ∷ small 0x2588 498 0
    ∷ small 0x258C 306 0
    ∷ small 0x2590 307 0
    ∷ small 0x2591 357 0
    ∷ small 0x2592 358 0
    ∷ small 0x2593 359 0
    ∷ small 0x25A0 335 0
    ∷ small 0x25A1 336 0
    ∷ small 0x25AA 507 0
    ∷ small 0x25AB 336 0
    ∷ small 0x25AC 355 0
    ∷ small 0x25AE 356 0
    ∷ small 0x25B2 348 0
    ∷ small 0x25B4 348 0
    ∷ small 0x25B6 345 0
    ∷ small 0x25B8 345 0
    ∷ small 0x25BA 345 0
    ∷ small 0x25BC 347 0
    ∷ small 0x25BE 347 0
    ∷ small 0x25C0 346 0
    ∷ small 0x25C2 346 0
    ∷ small 0x25C4 346 0
    ∷ small 0x25C6 353 0
    ∷ small 0x25CB 505 0
    ∷ small 0x25CF 495 0
    ∷ small 0x25D8 344 0
    ∷ small 0x25D9 506 0
    ∷ small 0x25E6 499 0
    ∷ small 0x25EF 505 0
    ∷ small 0x25FC 308 0
    ∷ small 0x25FE 507 0
    ∷ multi 0x2611 (59 ∷ 302 ∷ 61 ∷ [])
    ∷ multi 0x2612 (59 ∷ 284 ∷ 61 ∷ [])
    ∷ small 0x2613 56 0
    ∷ small 0x2621 58 0
    ∷ small 0x2639 563 0
    ∷ small 0x263A 361 0
    ∷ small 0x263B 362 0
    ∷ small 0x263C 360 0
    ∷ small 0x2640 350 0
    ∷ small 0x2642 349 0
    ∷ small 0x2660 354 0
    ∷ small 0x2663 352 0
    ∷ small 0x2665 351 0
    ∷ []
