-- ===== src/Translations/Ru/Onboard.antt =====
-- The Russian texts of the header and the wizard, lines 719 to 819 of frontend/src/i18n/translations.ts.
use lokinode.Translations.Table.{Table}
use mathlib.Core.List.{[], ◌∷◌}

unfoldable pub texts : Table
texts =
    ("header.help", "Помощь")
    ∷ ("header.settings", "Настройки")
    ∷ ("header.minimize", "Свернуть")
    ∷ ("header.close", "Закрыть")
    ∷ ("header.update_available", "Доступно обновление: {{version}}")
    ∷ ("node.errors.restart_failed", "Ошибка перезапуска")
    ∷ ("node.errors.stop_failed", "Ошибка остановки")
    ∷ ("node.errors.start_timeout", "Превышено время ожидания — проверьте журналы.")
    ∷ ("node.errors.lock_timeout_title", "Блокировка не завершена")
    ∷ (
      "node.errors.lock_timeout_desc",
      "Демон не вернулся в состояние блокировки. Проверьте журналы или остановите узел.",
    )
    ∷ ("node.errors.another_instance", "Другое окно Lokinode уже открыто. Сначала закройте его.")
    ∷ ("node.errors.port_conflict", "Конфликт портов — другой процесс использует тот же порт.")
    ∷ ("node.errors.rate_limited", "Слишком много попыток — подождите немного.")
    ∷ ("node.errors.daemon_not_ready", "Демон не готов.")
    ∷ ("language.label", "Язык")
    ∷ ("onboard.back", "Назад")
    ∷ ("onboard.cancel", "Отмена")
    ∷ ("onboard.next", "Продолжить")
    ∷ ("onboard.step_x_of_y", "Шаг {{x}} из {{y}}")
    ∷ ("onboard.node.title", "Назовите узел")
    ∷ ("onboard.node.desc", "Дайте узлу имя и выберите расположение его среды.")
    ∷ ("onboard.node.alias", "Псевдоним узла")
    ∷ ("onboard.node.alias_ph", "Мой Lokinode")
    ∷ ("onboard.node.dir", "Среда узла")
    ∷ ("onboard.node.advanced", "Дополнительные сетевые настройки")
    ∷ ("onboard.wallet.title", "Выберите кошелёк")
    ∷ ("onboard.wallet.desc", "Создайте новый или восстановите существующий.")
    ∷ ("onboard.wallet.create", "Создать новый кошелёк")
    ∷ ("onboard.wallet.create_sub", "Сгенерировать новую мнемоническую фразу из 24 слов.")
    ∷ ("onboard.wallet.restore", "Восстановить существующий кошелёк")
    ∷ ("onboard.wallet.restore_sub", "Из фразы из 24 слов или hex приватного ключа.")
    ∷ ("onboard.password.title", "Задайте пароль")
    ∷ ("onboard.password.desc", "Вы будете вводить его при каждом запуске узла.")
    ∷ ("onboard.password.label", "Пароль")
    ∷ ("onboard.password.confirm", "Подтверждение пароля")
    ∷ ("onboard.password.warn", "Восстановление пароля невозможно. Сохраните его в надёжном месте.")
    ∷ ("onboard.restore.title", "Восстановление кошелька")
    ∷ (
      "onboard.restore.desc",
      "Вставьте данные для восстановления — мы ничего не отправляем наружу.",
    )
    ∷ ("onboard.restore.mnemonic", "Seed фраза")
    ∷ ("onboard.restore.hex", "Приватный ключ")
    ∷ ("onboard.restore.mnemonic_label", "Ваша 24-словная seed фраза")
    ∷ ("onboard.restore.hex_label", "Ваш приватный ключ (hex)")
    ∷ ("onboard.review.title", "Готово к запуску")
    ∷ ("onboard.review.desc", "Посмотрите в последний раз, затем включите.")
    ∷ (
      "onboard.review.sync_warn",
      "Первый запуск синхронизируется с блокчейном. Это может занять некоторое время в зависимости от вашего соединения.",
    )
    ∷ ("onboard.review.alias", "Псевдоним")
    ∷ ("onboard.review.folder", "Среда узла")
    ∷ ("onboard.review.wallet", "Кошелёк")
    ∷ ("onboard.review.wallet_create", "Новый кошелёк")
    ∷ ("onboard.review.wallet_mnemonic", "Восстановлен из seed фразы")
    ∷ ("onboard.review.wallet_hex", "Восстановлен из hex")
    ∷ ("onboard.review.network", "Сеть")
    ∷ ("onboard.review.start", "Запустить узел")
    ∷ (
      "onboard.review.hint_create", "Мы запустим демона, сгенерируем фразу и разблокируем кошелёк.",
    )
    ∷ (
      "onboard.review.hint_restore",
      "Мы запустим демона и восстановим кошелёк — это может занять несколько минут.",
    )
    ∷ ("onboard.seed.title", "Сохраните мнемоническую фразу")
    ∷ (
      "onboard.seed.desc",
      "Эти 24 слова восстанавливают ваш кошелёк. Любой, у кого они есть, владеет вашими монетами.",
    )
    ∷ (
      "onboard.seed.warn",
      "Не делайте скриншотов и не храните онлайн. Запишите на бумаге и держите офлайн.",
    )
    ∷ ("onboard.seed.ack", "Я записал(а) все 24 слова в правильном порядке.")
    ∷ ("onboard.launch.verifying", "Проверка настроек…")
    ∷ ("onboard.launch.verifying_sub", "Убеждаемся, что всё готово к запуску демона.")
    ∷ ("onboard.launch.starting", "Запуск демона")
    ∷ ("onboard.launch.starting_sub", "Стартует процесс flnd.")
    ∷ ("onboard.launch.waiting", "Подготовка")
    ∷ ("onboard.launch.waiting_sub", "Ждём, пока узел выйдет на связь…")
    ∷ ("onboard.launch.reveal_title", "Ваша мнемоника")
    ∷ (
      "onboard.launch.reveal_desc", "Запишите эти слова сейчас — мы показываем их только один раз.",
    )
    ∷ ("onboard.launch.continue_init", "Создать кошелёк")
    ∷ ("onboard.launch.initializing", "Создание кошелька")
    ∷ ("onboard.launch.initializing_sub", "Шифруем кошелёк и готовим узел.")
    ∷ ("onboard.launch.done", "Готово")
    ∷ ("onboard.launch.error", "Запуск не удался")
    ∷ ("onboard.launch.dismiss", "Закрыть")
    ∷ ("onboard.errors.pwd_min", "Пароль должен содержать минимум 8 символов.")
    ∷ ("onboard.errors.pwd_match", "Пароли не совпадают.")
    ∷ ("onboard.errors.mnemonic_len", "Фраза должна состоять из 24 слов.")
    ∷ ("onboard.errors.hex_required", "Введите hex ключ для восстановления.")
    ∷ (
      "onboard.errors.wallet_exists",
      "В этой среде уже есть кошелёк. Выберите пустую среду или восстановите в неё.",
    )
    ∷ (
      "onboard.errors.seed_gen_failed",
      "Не удалось сгенерировать фразу восстановления. Попробуйте еще раз.",
    )
    ∷ (
      "node.errors.missing_files",
      "Файлы данных узла отсутствуют — каталог мог быть перемещён или удалён.",
    )
    ∷ ("node.errors.corrupt_cert", "TLS-сертификат повреждён — возможно, узел нужно пересоздать.")
    ∷ (
      "node.errors.connection_refused",
      "Не удалось подключиться к демону узла — проверьте конфликты портов.",
    )
    ∷ ("node.errors.timeout", "Демон узла завис при запуске.")
    ∷ (
      "node.errors.neutrino_corrupted",
      "Заголовки Neutrino повреждены — нажмите для очистки и перезапуска.",
    )
    ∷ ("node.errors.recover_failed", "Восстановление не удалось")
    ∷ ("node.status.no_wallet", "Кошелёк отсутствует")
    ∷ (
      "node.status.sub.no_wallet",
      "База данных кошелька не найдена. Вернитесь и пересоздайте узел.",
    )
    ∷ ("common.back_home", "На главную")
    ∷ []
